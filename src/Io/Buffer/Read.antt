-- ===== src/Io/Buffer/Read.antt =====
-- `Buffer::readFd` of src/io/Buffer.cc.
use libcpp.Prelude.{
  ℕ, ◌+◌, ◌≤◌, ◌<◌, ◌≡◌, refl, ◌∙◌, ap, some, List, ◌++◌, arith, length, take, drop, Returns, ◌>>=◌,
  Bool-cases, inl, inr, count, SysResult, leb, leb→le, take-append-drop, append_assoc, length-take,
  length-drop, take_of_le, Returns-bind,
}
use libcpp.Io.Buffer.{
  Buffer, max_size, append, received, read_fd, writable_bytes, write_bytes, has_written,
}
use libcpp.Io.Buffer.Room.{IsValid, contents, writable_bytes_lem, Roomy}
use libcpp.Io.Buffer.Queue.{Holds, Holds-weaken, Wrote, append-Holds, write_bytes-Wrote}

-- `Holds` with the count that `readFd` returns.
abbrev pub Read : List ℕ → ℕ → ℕ → SysResult × Buffer → Type 0
Read xs limit n (r, b) = (r ≡ count n) × Holds xs limit b

module _ {b : Buffer} (new : List ℕ) (v : IsValid b) where
  as_it_is : length new ≤ writable_bytes b → Roomy b (length new) b
  as_it_is h = record {
    valid = v;
    same = refl;
    room = omega (arith, v.within, writable_bytes_lem v);
    earlier = omega arith;
  }

  pub first_part : Roomy b (length (take (writable_bytes b) new)) b
  first_part = record {
    valid = v;
    same = refl;
    room = omega (arith, v.within, writable_bytes_lem v, length-take (writable_bytes b) new);
    earlier = omega arith;
  }

  -- The second half of `readFd`: the vector is full, and `extrabuf` is appended.
  spill :
      b.writer_index + length new ≤ max_size
      → writable_bytes b < length new
      → (c : Buffer)
      → Wrote
          (contents b)
          (b.writer_index + length (take (writable_bytes b) new))
          b
          (take (writable_bytes b) new)
          c
      → Returns (Read (contents b ++ new) (b.writer_index + length new) (length new)) (do
        b'' ← append (record c { writer_index = length c.bytes }) (drop (writable_bytes b) new)
        some (count (length new), b''))
  unfolding has_written
  spill fits more c w = rw full (
      Returns-bind (Holds (contents c' ++ rest) (c'.writer_index + length rest)) _ (append c' rest)
        _
        (append-Holds rest w.holds.valid
          (omega (arith, w.holds.early, first, length-drop (writable_bytes b) new)))
        λ b'' h. (
          refl,
          Holds-weaken joined
              (omega (arith, w.holds.early, first, length-drop (writable_bytes b) new)) h,
        ))
    where
      first : length (take (writable_bytes b) new) ≡ writable_bytes b
      first = omega (arith, length-take (writable_bytes b) new)

      full :
          record c { writer_index = length c.bytes }
          ≡ has_written c (length (take (writable_bytes b) new))
      full =
          ap (λ i. record c { writer_index = i })
            (omega (arith, first, w.size, w.at, writable_bytes_lem v, v.within, v.sized))

      c' : Buffer
      c' = has_written c (length (take (writable_bytes b) new))

      rest : List ℕ
      rest = drop (writable_bytes b) new

      joined : contents c' ++ rest ≡ contents b ++ new
      joined =
          ap (λ xs. xs ++ rest) w.holds.held
          ∙ append_assoc (contents b) (take (writable_bytes b) new) rest
          ∙ ap (◌++◌ (contents b)) (take-append-drop (writable_bytes b) new)

  -- `readFd` stores everything that `readv` delivers, also what first lands in `extrabuf`.
  pub read_fd-Holds :
      b.writer_index + length new ≤ max_size
      → Returns
          (Read (contents b ++ new) (b.writer_index + length new) (length new))
          (read_fd b (received new))
  unfolding read_fd
  read_fd-Holds fits = elim (Bool-cases (leb (length new) (writable_bytes b))) [
    | inl t ↦
        rw (t, take_of_le (writable_bytes b) new (leb→le _ _ t))
          (Returns-bind (Wrote (contents b) (b.writer_index + length new) b new)
            (Read (contents b ++ new) (b.writer_index + length new) (length new))
            (write_bytes b new) _ (write_bytes-Wrote new (as_it_is (leb→le _ _ t)))
            (λ c w. (refl, w.holds)))
    | inr t ↦ rw t (
        Returns-bind
          (Wrote (contents b) (b.writer_index + length (take (writable_bytes b) new)) b
            (take (writable_bytes b) new))
          (Read (contents b ++ new) (b.writer_index + length new) (length new))
          (write_bytes b (take (writable_bytes b) new)) _
          (write_bytes-Wrote (take (writable_bytes b) new) first_part) (spill fits (ground arith)))
  ]
