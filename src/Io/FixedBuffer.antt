-- ===== src/Io/FixedBuffer.antt =====
-- class FixedBuffer of src/io/Buffer.h. `data_` is a list of bytes, and `cur_` an offset in it.
use libcpp.Prelude.{
  ℕ, ◌+◌, ◌-◌, ◌≤◌, ◌<◌, ◌≡◌, refl, ◌∙◌, ap, ap₂, subst, tests, inl, inr, true, List, [], ◌∷◌, ◌++◌,
  arith, ltb, if◌then◌else◌, Bool-cases, length, take, drop, replicate, length-append, length-take,
  length-drop, length-replicate, take-append_add, take_of_le, take-append_of_le, append-nil,
  append_assoc,
}

pub record FixedBuffer : Type 0 where
  pub data_bytes : List ℕ
  pub cur : ℕ

-- The constructor of `FixedBuffer<SIZE>`.
abbrev pub init : ℕ → FixedBuffer
init size = record { data_bytes = replicate size 0; cur = 0 }

-- `end() - cur_`
unfoldable pub avail : FixedBuffer → ℕ
avail b = length b.data_bytes - b.cur

unfoldable pub append : FixedBuffer → List ℕ → FixedBuffer
append b new =
    if ltb (length new) (avail b)
    then record {
      data_bytes = take b.cur b.data_bytes ++ (new ++ drop (b.cur + length new) b.data_bytes);
      cur = b.cur + length new;
    }
    else b

-- `string()`
unfoldable pub string : FixedBuffer → List ℕ
string b = take b.cur b.data_bytes

unfoldable pub reset : FixedBuffer → FixedBuffer
reset b = record b { cur = 0 }

unfoldable pub bzero : FixedBuffer → FixedBuffer
bzero b = record b { data_bytes = replicate (length b.data_bytes) 0 }

-- What `current()` points at, up to the end; a caller writes there without a check, and then calls `add`.
unfoldable pub current : FixedBuffer → List ℕ
current b = drop b.cur b.data_bytes

unfoldable pub add : ℕ → FixedBuffer → FixedBuffer
add len b = record b { cur = b.cur + len }

-- All of `msgs`, one after the other; and those of them that fit, in the same order.
unfoldable pub append_all : FixedBuffer → List (List ℕ) → FixedBuffer
append_all b [] = b
append_all b (msg ∷ msgs) = append_all (append b msg) msgs

unfoldable pub fitting : ℕ → List (List ℕ) → List ℕ
fitting room [] = []
fitting room (msg ∷ msgs) =
    if ltb (length msg) room then msg ++ fitting (room - length msg) msgs else fitting room msgs

-- The buffer of `size` bytes that holds `xs` and ends inside its array.
pub record Holds (size : ℕ) (xs : List ℕ) (b : FixedBuffer) : Type 0 where
  pub sized : length b.data_bytes ≡ size
  pub held : string b ≡ xs
  pub inside : b.cur ≤ size

pub init-Holds : (size : ℕ) → Holds size [] (init size)
unfolding string
init-Holds size = record { sized = length-replicate size 0; held = refl; inside = omega arith }

pub cur-length : {size : ℕ} {xs : List ℕ} {b : FixedBuffer} → Holds size xs b → b.cur ≡ length xs
unfolding string
cur-length {size} {xs} {b} h =
    omega (arith, length-take b.cur b.data_bytes, ap length h.held, h.sized, h.inside)

pub append-fits :
    (size : ℕ) (xs : List ℕ) (b : FixedBuffer) (new : List ℕ)
    → Holds size xs b
    → length new < size - length xs
    → Holds size (xs ++ new) (append b new)
unfolding append avail string
append-fits size xs b new h fits = rw test (record {
  sized = omega (
    arith,
    length-append (take b.cur b.data_bytes) (new ++ drop (b.cur + length new) b.data_bytes),
    length-append new (drop (b.cur + length new) b.data_bytes),
    length-take b.cur b.data_bytes,
    length-drop (b.cur + length new) b.data_bytes,
    h.sized,
    h.inside,
    cur-length h,
  );
  held =
      take-append_add (length new) (b.cur + length new) (take b.cur b.data_bytes)
        (new ++ drop (b.cur + length new) b.data_bytes)
        (omega (arith, length-take b.cur b.data_bytes, h.sized, h.inside))
      ∙ ap₂ (λ ys zs. ys ++ zs) h.held
          (take-append_of_le (length new) new (drop (b.cur + length new) b.data_bytes) (omega arith)
            ∙ take_of_le (length new) new (omega arith));
  inside = omega (arith, h.inside, h.sized, cur-length h);
})
  where
    test : ltb (length new) (length b.data_bytes - b.cur) ≡ true
    test = ground (arith, fits, h.sized, cur-length h)

pub append-too_long :
    (size : ℕ) (xs : List ℕ) (b : FixedBuffer) (new : List ℕ)
    → Holds size xs b
    → size - length xs ≤ length new
    → append b new ≡ b
unfolding append avail
append-too_long size xs b new h long = ground (arith, long, h.sized, cur-length h)

-- A buffer of `size` bytes takes messages one after the other as a list would, except that a message
-- that would leave no byte free is dropped whole; it never writes past its end.
pub append_all-Holds :
    (size : ℕ) (msgs : List (List ℕ)) (xs : List ℕ) (b : FixedBuffer)
    → Holds size xs b
    → Holds size (xs ++ fitting (size - length xs) msgs) (append_all b msgs)
unfolding append_all fitting
append_all-Holds size [] xs b h = rw (append-nil xs) h
append_all-Holds size (msg ∷ msgs) xs b h =
    elim (Bool-cases (ltb (length msg) (size - length xs))) [
      | inl t ↦ rw t (
          subst (λ ys. Holds size ys (append_all (append b msg) msgs)) (regroup)
            (append_all-Holds size msgs (xs ++ msg) (append b msg)
              (append-fits size xs b msg h (omega (tests, t)))))
      | inr t ↦
          rw (t, append-too_long size xs b msg h (ground (arith, t)))
            (append_all-Holds size msgs xs b h)
    ]
  where
    regroup :
        (xs ++ msg) ++ fitting (size - length (xs ++ msg)) msgs
        ≡ xs ++ (msg ++ fitting (size - length xs - length msg) msgs)
    regroup =
        append_assoc xs msg _
        ∙ ap (λ k. xs ++ (msg ++ fitting k msgs)) (omega (arith, length-append xs msg))
