-- ===== src/Logging/AsyncLogging/Order.antt =====
-- Log lines reach the file in order, in the first round of the back end; and what comes after it.
use libcpp.Prelude.{
  ℕ, ◌-◌, ◌<◌, ◌≡◌, refl, sym, ap, subst, ◌∙◌, inl, inr, true, Option, none, some, List, [], ◌∷◌,
  ◌++◌, arith, ltb, ◌>>=◌, length, Returns, Bool-cases, append-nil, append_assoc,
}
use libcpp.Io.FixedBuffer.{
  FixedBuffer, append, avail, string, Holds, append-fits, cur-length, init-Holds,
}
use libcpp.Io.FixedBuffer as Fixed
use libcpp.Logging.AsyncLogging.{
  AsyncLogging, strings, or_else, refill, left_over, log, collect, write_out,
}

-- A null pointer or an empty buffer.
abbrev pub Spare : ℕ → Option FixedBuffer → Type 0
Spare large none = Unit {0}
Spare large (some b) = Holds large [] b

pub record Inv (large : ℕ) (s : AsyncLogging) : Type 0 where
  pub current : FixedBuffer
  pub filled : List ℕ
  pub is_current : s.current_buffer ≡ some current
  pub holds : Holds large filled current
  pub next_spare : Spare large s.next_buffer
  pub new1_spare : Spare large s.new_buffer1
  pub new2_spare : Spare large s.new_buffer2

abbrev pub contents : Option FixedBuffer → List ℕ
contents none = []
contents (some b) = string b

-- All that was logged, in order: what is written, what the back end has yet to write, the full
-- buffers and the current one.
abbrev pub stream : AsyncLogging → List ℕ
stream s =
    s.written ++ (strings s.buffers_to_write ++ (strings s.buffers ++ contents s.current_buffer))

pub record Logged (large : ℕ) (line : List ℕ) (s s' : AsyncLogging) : Type 0 where
  pub inv : Inv large s'
  pub whole : stream s' ≡ stream s ++ line

strings-append : (xs ys : List FixedBuffer) → strings (xs ++ ys) ≡ strings xs ++ strings ys
unfolding strings
strings-append [] ys = refl
strings-append (b ∷ xs) ys =
    ap (λ zs. string b ++ zs) (strings-append xs ys)
    ∙ sym (append_assoc (string b) (strings xs) (strings ys))

pub strings-last :
    (xs : List FixedBuffer) (b : FixedBuffer) → strings (xs ++ (b ∷ [])) ≡ strings xs ++ string b
unfolding strings
strings-last xs b = strings-append xs (b ∷ []) ∙ ap (λ zs. strings xs ++ zs) (append-nil (string b))

or_else-Holds :
    (large : ℕ) (p : Option FixedBuffer)
    → Spare large p
    → Holds large [] (or_else p (Fixed.init large))
or_else-Holds large none h = init-Holds large
or_else-Holds large (some b) h = h

-- Four pieces and a fifth.
behind : (a b c d e : List ℕ) → a ++ (b ++ (c ++ (d ++ e))) ≡ (a ++ (b ++ (c ++ d))) ++ e
behind a b c d e = sym (
    append_assoc a (b ++ (c ++ d)) e
    ∙ ap (λ x. a ++ x) (append_assoc b (c ++ d) e ∙ ap (λ x. b ++ x) (append_assoc c d e)))

string-append :
    (large : ℕ) (xs line : List ℕ) (b : FixedBuffer)
    → Holds large xs b
    → Holds large (xs ++ line) (append b line)
    → string (append b line) ≡ string b ++ line
string-append large xs line b h k = k.held ∙ ap (λ ys. ys ++ line) (sym h.held)

has_room :
    (large : ℕ) (xs line : List ℕ) (b : FixedBuffer)
    → Holds large xs b
    → ltb (length line) (avail b) ≡ true
    → length line < large - length xs
unfolding avail
has_room large xs line b h t = ground (arith, t, cur-length h, h.sized)

-- A line that is shorter than a buffer is logged: while the current buffer is there, `append`
-- dereferences no null pointer, and puts the line behind all that was logged before.
pub log-Logged :
    (large : ℕ) (line : List ℕ) (s : AsyncLogging)
    → Inv large s
    → length line < large
    → Returns (Logged large line s) (log large line s)
unfolding log
log-Logged large line s v h = elim (Bool-cases (ltb (length line) (avail v.current))) [
  | inl t ↦
      let k =
        append-fits large v.filled v.current line v.holds
          (has_room large v.filled line v.current v.holds t) in
      rw (v.is_current, t)
        (record {
          inv = record {
            current = append v.current line;
            filled = v.filled ++ line;
            is_current = refl;
            holds = k;
            next_spare = v.next_spare;
            new1_spare = v.new1_spare;
            new2_spare = v.new2_spare;
          };
          whole = rw (string-append large v.filled line v.current v.holds k) (
              behind s.written (strings s.buffers_to_write) (strings s.buffers) (string v.current)
                line);
        })
  | inr t ↦
      let fresh = or_else-Holds large s.next_buffer v.next_spare in
      let k =
        append-fits large [] (or_else s.next_buffer (Fixed.init large)) line fresh (omega arith) in
      rw (v.is_current, t)
        (record {
          inv = record {
            current = append (or_else s.next_buffer (Fixed.init large)) line;
            filled = line;
            is_current = refl;
            holds = k;
            next_spare = tt;
            new1_spare = v.new1_spare;
            new2_spare = v.new2_spare;
          };
          whole =
              rw
                (
                  k.held,
                  strings-last s.buffers v.current,
                  append_assoc (strings s.buffers) (string v.current) line,
                )
                (behind s.written (strings s.buffers_to_write) (strings s.buffers)
                  (string v.current) line);
        })
]

refill-Spare :
    (large : ℕ) (p q : Option FixedBuffer)
    → Spare large p
    → Spare large q
    → Spare large (refill p q)
refill-Spare large none q h k = k
refill-Spare large (some b) q h k = h

left_over-Spare :
    (large : ℕ) (p q : Option FixedBuffer) → Spare large q → Spare large (left_over p q)
left_over-Spare large none q k = tt
left_over-Spare large (some b) q k = k

-- In a round of the back end that finds its first spare buffer there and nothing left to write, no
-- null pointer is dereferenced, and all that was logged before stays as it was, in order.
pub round-Logged :
    (large : ℕ) (s : AsyncLogging) (spare : FixedBuffer)
    → Inv large s
    → s.new_buffer1 ≡ some spare
    → s.buffers_to_write ≡ []
    → Returns (λ s'. Logged large [] s (write_out s') × (s'.new_buffer1 ≡ none)) (collect s)
unfolding collect write_out strings
round-Logged large s spare v n w =
    let h : Holds large [] spare = subst (Spare large) n v.new1_spare in
    rw (v.is_current, n, w)
      (
        record {
          inv = record {
            current = spare;
            filled = [];
            is_current = refl;
            holds = h;
            next_spare = refill-Spare large s.next_buffer s.new_buffer2 v.next_spare v.new2_spare;
            new1_spare = tt;
            new2_spare = left_over-Spare large s.next_buffer s.new_buffer2 v.new2_spare;
          };
          whole =
              rw
                (
                  h.held,
                  append-nil (s.written ++ strings (s.buffers ++ (v.current ∷ []))),
                  strings-last s.buffers v.current,
                )
                (sym (append-nil _));
        },
        refl,
      )

-- After two rounds of the back end the current buffer is the null pointer, since the spare buffers
-- are not made again: the next line that is logged dereferences it, or one of the rounds did.
pub two_rounds :
    (large : ℕ) (line : List ℕ) (s : AsyncLogging)
    → (collect s >>= λ s'. collect (write_out s') >>= λ s''. log large line (write_out s'')) ≡ none
unfolding collect write_out log
two_rounds large line s = go s.current_buffer s.new_buffer1
  where
    go :
        (p q : Option FixedBuffer)
        → (collect (record s { current_buffer = p; new_buffer1 = q }) >>= λ s'.
            collect (write_out s') >>= λ s''. log large line (write_out s''))
          ≡ none
    go none q = refl
    go (some b) none = refl
    go (some b) (some b') = refl
