-- ===== src/Io/Buffer/Room.antt =====
-- The representation of class Buffer, and how it makes room for a write.
use libcpp.Prelude.{
  ℕ, ◌+◌, ◌-◌, ◌≤◌, ◌<◌, ◌≡◌, refl, some, List, ◌++◌, arith, Bool, true, false, inl, inr, length,
  take, drop, slice, replicate, length-append, length-take, length-drop, length-replicate,
  length-slice, slice-append, slice-write, take_of_le, add_size, le→leb, lt→ltb, Bool-cases,
  Returns, Returns-bind, ◌>>◌, assert, leb, tests, ltb,
}
use libcpp.Io.Buffer.{
  cheap_prepend, Buffer, max_size, readable_bytes, writable_bytes, prependable_bytes, copy_to,
  resize, grow, slide, make_space, ensure_writable_bytes,
}

pub record IsValid (b : Buffer) : Type 0 where
  pub prepend : 8 ≤ b.reader_index
  pub ordered : b.reader_index ≤ b.writer_index
  pub within : b.writer_index ≤ length b.bytes
  pub sized : length b.bytes ≤ max_size

-- The bytes that are written and not yet read.
abbrev pub contents : Buffer → List ℕ
contents b = slice b.reader_index b.writer_index b.bytes

pub readable_bytes_lem :
    {b : Buffer} → IsValid b → readable_bytes b ≡ b.writer_index - b.reader_index
unfolding readable_bytes
readable_bytes_lem v = omega arith

pub length-contents : {b : Buffer} → IsValid b → length (contents b) ≡ readable_bytes b
unfolding readable_bytes
length-contents {b} v =
    omega (arith, length-slice b.reader_index b.writer_index b.bytes v.ordered v.within)

pub writable_bytes_lem :
    {b : Buffer} → IsValid b → writable_bytes b ≡ length b.bytes - b.writer_index
unfolding writable_bytes
writable_bytes_lem v = omega arith

-- What `b'` keeps of `b`, and the room that it has.
pub record Roomy (b : Buffer) (len : ℕ) (b' : Buffer) : Type 0 where
  pub valid : IsValid b'
  pub same : contents b' ≡ contents b
  pub room : b'.writer_index + len ≤ length b'.bytes
  pub earlier : b'.writer_index ≤ b.writer_index

-- What `grow` and `slide` return.
grown : Buffer → ℕ → Buffer
grown b len = record b { bytes = b.bytes ++ replicate (b.writer_index + len - length b.bytes) 0 }

slid : Buffer → Buffer
slid b = record {
  bytes = take 8 b.bytes ++ (contents b ++ drop (8 + length (contents b)) b.bytes);
  reader_index = 8;
  writer_index = 8 + (b.writer_index - b.reader_index);
}

module _ {b : Buffer} (len : ℕ) (v : IsValid b) where
  grow-eq :
      length b.bytes ≤ b.writer_index + len
      → b.writer_index + len ≤ max_size
      → grow b len ≡ some (grown b len)
  unfolding grow resize grown
  grow-eq more fits =
      let no_wrap : add_size b.writer_index len ≡ b.writer_index + len = omega arith in
      rw (no_wrap, le→leb _ _ fits, take_of_le (b.writer_index + len) b.bytes more)

  grown-Roomy : b.writer_index + len ≤ max_size → Roomy b len (grown b len)
  unfolding grown
  grown-Roomy fits = record {
    valid = record {
      prepend = v.prepend;
      ordered = v.ordered;
      within = omega (arith, v.within, size);
      sized = omega (arith, v.within, v.sized, size);
    };
    same = slice-append b.reader_index b.writer_index b.bytes zeros v.ordered v.within;
    room = omega (arith, v.within, size);
    earlier = omega arith;
  }
    where
      zeros : List ℕ
      zeros = replicate (b.writer_index + len - length b.bytes) 0

      size : length (b.bytes ++ zeros) ≡ length b.bytes + (b.writer_index + len - length b.bytes)
      size = omega (
        arith,
        length-append b.bytes zeros,
        length-replicate {A = ℕ} (b.writer_index + len - length b.bytes) 0,
      )

  slide-eq : 8 < b.reader_index → slide b ≡ some (slid b)
  unfolding slide copy_to slid readable_bytes
  slide-eq h = rw (lt→ltb _ _ h, le→leb _ _ inside) (ground (arith, v.ordered, v.within, v.sized))
    where
      inside : 8 + length (contents b) ≤ length b.bytes
      inside = omega (
        arith,
        v.within,
        v.ordered,
        length-slice b.reader_index b.writer_index b.bytes v.ordered v.within,
      )

  slid-Roomy :
      8 < b.reader_index
      → len + 8 ≤ length b.bytes - b.writer_index + b.reader_index
      → Roomy b len (slid b)
  unfolding slid
  slid-Roomy h spare = record {
    valid = record {
      prepend = omega arith;
      ordered = omega arith;
      within = omega (arith, v.within, v.ordered, size);
      sized = omega (arith, v.sized, size);
    };
    same =
        slice-write 8 8 (8 + (b.writer_index - b.reader_index)) b.bytes (contents b) _ (omega arith)
          (omega arith)
          (omega (
            arith,
            v.within,
            v.ordered,
            length-slice b.reader_index b.writer_index b.bytes v.ordered v.within,
          ));
    room = omega (arith, v.within, v.ordered, size);
    earlier = omega (arith, v.ordered);
  }
    where
      kept : List ℕ
      kept = contents b ++ drop (8 + length (contents b)) b.bytes

      size : length (take 8 b.bytes ++ kept) ≡ length b.bytes
      size = omega (
        arith,
        v.within,
        v.ordered,
        length-append (take 8 b.bytes) kept,
        length-append (contents b) (drop (8 + length (contents b)) b.bytes),
        length-take 8 b.bytes,
        length-drop (8 + length (contents b)) b.bytes,
        length-slice b.reader_index b.writer_index b.bytes v.ordered v.within,
      )

  pub make_space-Roomy :
      length b.bytes < b.writer_index + len
      → b.writer_index + len ≤ max_size
      → Returns (Roomy b len) (make_space b len)
  unfolding make_space writable_bytes prependable_bytes
  make_space-Roomy short fits = elim (Bool-cases crowded) [
    | inl t ↦ rw (t, grow-eq (omega arith) fits) (grown-Roomy fits)
    | inr t ↦ rw (t, slide-eq (spare t).0) (slid-Roomy (spare t).0 (spare t).1)
  ]
    where
      crowded : Bool
      crowded = ltb (add_size (writable_bytes b) (prependable_bytes b)) (add_size len cheap_prepend)

      spare :
          crowded ≡ false
          → (8 < b.reader_index) × (len + 8 ≤ length b.bytes - b.writer_index + b.reader_index)
      spare t = ground (arith, v.prepend, v.ordered, v.within, v.sized)

  -- The assertion that ends `ensureWritableBytes`.
  checked :
      (b' : Buffer)
      → Roomy b len b'
      → Returns (Roomy b len) (assert (leb len (writable_bytes b')) >> some b')
  checked b' r = rw (le→leb len (writable_bytes b') enough) r
    where
      enough : len ≤ writable_bytes b'
      enough = omega (arith, r.room, writable_bytes_lem r.valid)

  pub ensure_writable_bytes-Roomy :
      b.writer_index + len ≤ max_size → Returns (Roomy b len) (ensure_writable_bytes b len)
  unfolding ensure_writable_bytes
  ensure_writable_bytes-Roomy fits = elim (Bool-cases (ltb (writable_bytes b) len)) [
    | inl t ↦ rw t (
        Returns-bind (Roomy b len) (Roomy b len) (make_space b len) _
          (make_space-Roomy (short t) fits) checked)
    | inr t ↦ rw t (
        checked b (record {
          valid = v;
          same = refl;
          room = ground (arith, writable_bytes_lem v, v.within);
          earlier = omega arith;
        }))
  ]
    where
      short : ltb (writable_bytes b) len ≡ true → length b.bytes < b.writer_index + len
      short t = omega (tests, writable_bytes_lem v, v.within)
