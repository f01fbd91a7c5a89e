-- ===== src/Logging/AsyncLogging/Stop.antt =====
-- What is in the file when the logger is stopped.
use libcpp.Prelude.{
  ℕ, ◌<◌, ◌≡◌, refl, sym, ap, ◌∙◌, inl, inr, Option, none, some, List, [], ◌∷◌, ◌++◌, ltb, length,
  Returns, Returns-bind, Returns-imp, Bool-cases, append-nil, append_assoc,
}
use libcpp.Prelude.Bytes.{concat}
use libcpp.Io.FixedBuffer.{FixedBuffer, avail, string, init-Holds}
use libcpp.Io.FixedBuffer as Fixed
use libcpp.Logging.AsyncLogging.{
  AsyncLogging, init, strings, log, log_all, collect, write_out, start_and_stop,
}
use libcpp.Logging.AsyncLogging.Order.{Inv, stream, Logged, log-Logged, round-Logged, strings-last}

Returns-and :
    (P Q : AsyncLogging → Type 0) (m : Option AsyncLogging)
    → Returns P m
    → Returns Q m
    → Returns (λ s. P s × Q s) m
Returns-and P Q none h k = h
Returns-and P Q (some s) h k = (h, k)

-- The back end's part of the state is untouched.
abbrev Kept : AsyncLogging → AsyncLogging → Type 0
Kept s s' =
    (s'.new_buffer1 ≡ s.new_buffer1)
    × (s'.buffers_to_write ≡ s.buffers_to_write)
    × (s'.written ≡ s.written)

abbrev pub AllShort : ℕ → List (List ℕ) → Type 0
AllShort large [] = Unit
AllShort large (line ∷ lines) = (length line < large) × AllShort large lines

module _ (large : ℕ) where
  log-Kept : (line : List ℕ) (s : AsyncLogging) → Inv large s → Returns (Kept s) (log large line s)
  unfolding log
  log-Kept line s v = elim (Bool-cases (ltb (length line) (avail v.current))) [
    | inl t ↦ rw (v.is_current, t) (refl, refl, refl)
    | inr t ↦ rw (v.is_current, t) (refl, refl, refl)
  ]

  abbrev All : List (List ℕ) → AsyncLogging → AsyncLogging → Type 0
  All lines s s' = Logged large (concat lines) s s' × Kept s s'

  log_all-All :
      (lines : List (List ℕ)) (s : AsyncLogging)
      → Inv large s
      → AllShort large lines
      → Returns (All lines s) (log_all large lines s)
  log_all-All [] s v h =
      (record { inv = v; whole = sym (append-nil (stream s)) }, (refl, refl, refl))
  log_all-All (line ∷ lines) s v (h, hs) =
      Returns-bind (λ s'. Logged large line s s' × Kept s s') (All (line ∷ lines) s)
        (log large line s) (log_all large lines)
        (Returns-and (Logged large line s) (Kept s) (log large line s) (log-Logged large line s v h)
          (log-Kept line s v))
        λ s' (l, (a, b, c)).
          Returns-imp (All lines s') (All (line ∷ lines) s) (log_all large lines s')
            (log_all-All lines s' l.inv hs)
            λ s'' (l', (a', b', c')). (
              record {
                inv = l'.inv;
                whole =
                    l'.whole
                    ∙ ap (λ x. x ++ concat lines) l.whole
                    ∙ append_assoc (stream s) line (concat lines);
              },
              (a' ∙ a, b' ∙ b, c' ∙ c),
            )

  init-Inv : Inv large (init large)
  init-Inv = record {
    current = Fixed.init large;
    filled = [];
    is_current = refl;
    holds = init-Holds large;
    next_spare = init-Holds large;
    new1_spare = init-Holds large;
    new2_spare = init-Holds large;
  }

  -- What a round writes is all that was logged, if nothing was left to write before.
  collect-written :
      (s : AsyncLogging)
      → Inv large s
      → s.buffers_to_write ≡ []
      → Returns (λ s'. (write_out s').written ≡ stream s) (collect s)
  unfolding collect write_out strings
  collect-written s v w =
      rw (v.is_current, w) (ap (λ x. s.written ++ x) (strings-last s.buffers v.current))

  -- A logger whose back end makes one round: of the lines that are logged, each shorter than a buffer, the file
  -- has those from before the round, whole and in order, when the logger is stopped. Those that came
  -- behind it are lost.
  pub start_and_stop_lem :
      (lines late : List (List ℕ))
      → AllShort large lines
      → AllShort large late
      → Returns (λ s. s.written ≡ concat lines) (start_and_stop large lines late)
  unfolding start_and_stop strings
  start_and_stop_lem lines late h k =
      Returns-bind (All lines (init large)) _ (log_all large lines (init large)) _
        (log_all-All lines (init large) init-Inv h)
        λ s (l, (a, b, c)).
          Returns-bind
            (λ s'.
              (Logged large [] s (write_out s') × (s'.new_buffer1 ≡ none))
              × ((write_out s').written ≡ stream s))
            _ (collect s) _
            (Returns-and _ _ (collect s) (round-Logged large s (Fixed.init large) l.inv a b)
              (collect-written s l.inv b))
            λ s' ((l', n), w).
              Returns-imp (All late (write_out s')) _ (log_all large late (write_out s'))
                (log_all-All late (write_out s') l'.inv k)
                λ s'' (l'', (a', b', c')).
                  c' ∙ w ∙ l.whole ∙ ap (λ x. x ++ concat lines) (init-Holds large).held
