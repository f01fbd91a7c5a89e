-- ===== src/Io/Buffer/Queue.antt =====
-- class Buffer as a queue of bytes: what is appended is read back, in order.
use mathlib.Core.Option
use libcpp.Prelude.{
  ℕ, ◌+◌, ◌-◌, ◌≤◌, ◌<◌, ◌≡◌, refl, sym, ◌∙◌, ap, ap₂, subst, Option-cases, none, some, List, ◌++◌,
  arith, length, take, drop, length-append, length-take, length-drop, slice-write, drop-take,
  drop-drop, add_size, le→leb, Returns, Returns-bind, inl, inr,
}
use libcpp.Io.Buffer.{
  Buffer, max_size, readable_bytes, retrieve, copy_to, has_written, write_bytes, append,
  ensure_writable_bytes,
}
use libcpp.Io.Buffer.Room.{
  IsValid, contents, readable_bytes_lem, Roomy, ensure_writable_bytes-Roomy,
}

-- A valid buffer that holds `xs`, and has written no further than `limit`.
pub record Holds (xs : List ℕ) (limit : ℕ) (b : Buffer) : Type 0 where
  pub valid : IsValid b
  pub held : contents b ≡ xs
  pub early : b.writer_index ≤ limit

pub Holds-weaken :
    {xs ys : List ℕ} {m n : ℕ} {b : Buffer} → xs ≡ ys → m ≤ n → Holds xs m b → Holds ys n b
Holds-weaken e h k = record {
  valid = k.valid;
  held = k.held ∙ e;
  early = omega (arith, h, k.early);
}

-- What a write of `new` to `b'` makes of it, before `hasWritten`.
pub record Wrote (xs : List ℕ) (limit : ℕ) (b' : Buffer) (new : List ℕ) (c : Buffer) : Type 0 where
  pub at : c.writer_index ≡ b'.writer_index
  pub size : length c.bytes ≡ length b'.bytes
  pub holds : Holds (xs ++ new) limit (has_written c (length new))

-- With room for `new`, it goes behind the contents.
pub write_bytes-Wrote :
    {b b' : Buffer} (new : List ℕ)
    → Roomy b (length new) b'
    → Returns (Wrote (contents b) (b.writer_index + length new) b' new) (write_bytes b' new)
unfolding write_bytes copy_to has_written
write_bytes-Wrote {b} {b'} new r = rw (le→leb _ _ r.room) (record {
  at = refl;
  size = size;
  holds = rw no_wrap (record {
    valid = record {
      prepend = r.valid.prepend;
      ordered = omega (arith, r.valid.ordered);
      within = omega (arith, r.room, size);
      sized = omega (arith, r.valid.sized, size);
    };
    held =
        slice-write b'.reader_index b'.writer_index (b'.writer_index + length new) b'.bytes new _
          r.valid.ordered r.valid.within refl
        ∙ ap (λ c. c ++ new) r.same;
    early = omega (arith, r.earlier);
  });
})
  where
    no_wrap : add_size b'.writer_index (length new) ≡ b'.writer_index + length new
    no_wrap = omega (arith, r.room, r.valid.sized)

    size :
        length
          (take b'.writer_index b'.bytes ++ (new ++ drop (b'.writer_index + length new) b'.bytes))
        ≡ length b'.bytes
    size = omega (
      arith,
      r.room,
      length-append (take b'.writer_index b'.bytes)
          (new ++ drop (b'.writer_index + length new) b'.bytes),
      length-append new (drop (b'.writer_index + length new) b'.bytes),
      length-take b'.writer_index b'.bytes,
      length-drop (b'.writer_index + length new) b'.bytes,
    )

-- `append` of a valid buffer never fails an assertion or leaves the vector, as long as the vector
-- may be that long: it keeps the buffer valid and puts the new bytes behind the unread ones.
pub append-Holds :
    {b : Buffer} (new : List ℕ)
    → IsValid b
    → b.writer_index + length new ≤ max_size
    → Returns (Holds (contents b ++ new) (b.writer_index + length new)) (append b new)
unfolding append
append-Holds {b} new v fits =
    Returns-bind (Roomy b (length new)) (Holds (contents b ++ new) (b.writer_index + length new))
      (ensure_writable_bytes b (length new)) _ (ensure_writable_bytes-Roomy (length new) v fits)
      λ b' r.
        Returns-bind (Wrote (contents b) (b.writer_index + length new) b' new)
          (Holds (contents b ++ new) (b.writer_index + length new)) (write_bytes b' new) _
          (write_bytes-Wrote new r) (λ c h. h.holds)

-- `append` in one equation.
pub contents-append :
    {b : Buffer} (new : List ℕ)
    → IsValid b
    → b.writer_index + length new ≤ max_size
    → Option.map contents (append b new) ≡ some (contents b ++ new)
contents-append {b} new v fits = elim (Option-cases (append b new)) [
  | inl e ↦ absurd (subst (Returns (Holds (contents b ++ new) (b.writer_index + length new))) e ok)
  | inr (c, e) ↦ rw e (
      ap some (subst (Returns (Holds (contents b ++ new) (b.writer_index + length new))) e ok).held)
]
  where
    ok : Returns (Holds (contents b ++ new) (b.writer_index + length new)) (append b new)
    ok = append-Holds new v fits

retrieved :
    {b : Buffer} (len : ℕ)
    → IsValid b
    → len ≤ readable_bytes b
    → Holds
        (drop len (contents b))
        b.writer_index
        (record b { reader_index = b.reader_index + len })
retrieved {b} len v h = record {
  valid = record {
    prepend = omega (arith, v.prepend);
    ordered = omega (arith, readable_bytes_lem v, v.ordered);
    within = v.within;
    sized = v.sized;
  };
  held =
      ap₂ take (omega arith) (sym (drop-drop len b.reader_index b.bytes))
      ∙ sym (drop-take len (b.writer_index - b.reader_index) (drop b.reader_index b.bytes));
  early = omega arith;
}

-- `retrieve` of at most the readable bytes of a valid buffer fails no assertion: it drops them from
-- the front and keeps the buffer valid.
pub retrieve-Holds :
    {b : Buffer} (len : ℕ)
    → IsValid b
    → len ≤ readable_bytes b
    → Returns (Holds (drop len (contents b)) b.writer_index) (retrieve b len)
unfolding retrieve
retrieve-Holds {b} len v h = rw (le→leb _ _ h, no_wrap) (retrieved len v h)
  where
    no_wrap : add_size b.reader_index len ≡ b.reader_index + len
    no_wrap = omega (arith, readable_bytes_lem v, v.within, v.sized)

-- Of more, it fails its assertion.
pub retrieve_too_much : (b : Buffer) (len : ℕ) → readable_bytes b < len → retrieve b len ≡ none
unfolding retrieve
retrieve_too_much b len h = ground arith
