-- ===== src/Prelude/Decimal.antt =====
-- Decimal numbers: `std::to_string` of an unsigned number, and `std::stoul`.
use Prim.Native.Nat.{ℕ, zero, suc, ◌+◌, ◌-◌, ◌*◌, ◌/◌, ◌%◌, ◌<◌, ◌≤◌}
use mathlib.Core.Path.{◌≡◌, refl, ◌∙◌}
use mathlib.Core.Bool.{Bool, true, ◌&&◌}
use mathlib.Core.List.{[], ◌∷◌, ◌++◌}
use mathlib.Core.Logic.{inl, inr, ◌≢◌}
use native.Mathlib.Omega.{arith}
use libcpp.Prelude.Lists.{length, length-append, replicate, length-replicate}
use libcpp.Prelude.Tests.{lt→ltb, ltb, leb, if◌then◌else◌, Bool-cases}
use libcpp.Prelude.Bytes.{Bytes}

-- A number has fewer digits than the number that follows it is large.
unfoldable pub digits : ℕ → ℕ → Bytes
digits zero n = []
digits (suc fuel) n =
    let rest = digits fuel (n / 10) in
    if ltb n 10 then (48 + n) ∷ [] else rest ++ ((48 + n % 10) ∷ [])

-- `std::to_string`.
unfoldable pub decimal : ℕ → Bytes
decimal n = digits (suc n) n

abbrev pub is_digit : ℕ → Bool
is_digit c = leb 48 c && leb c 57

unfoldable pub all_digits : Bytes → Bool
all_digits [] = true
all_digits (c ∷ s) = is_digit c && all_digits s

-- The number that digits spell behind `n`.
unfoldable pub read_digits : ℕ → Bytes → ℕ
read_digits n [] = n
read_digits n (c ∷ s) = read_digits (n * 10 + (c - 48)) s

read_digits-append :
    (s : Bytes) (n c : ℕ) → read_digits n (s ++ (c ∷ [])) ≡ read_digits n s * 10 + (c - 48)
unfolding read_digits
read_digits-append [] n c = refl
read_digits-append (d ∷ s) n c = read_digits-append s (n * 10 + (d - 48)) c

all_digits-append :
    (s : Bytes) (c : ℕ)
    → all_digits s ≡ true
    → is_digit c ≡ true
    → all_digits (s ++ (c ∷ [])) ≡ true
unfolding all_digits
all_digits-append [] c h d = ground (arith, h, d)
all_digits-append (x ∷ s) c h d = ground (arith, h, d, all_digits-append s c)

read_digits-digits : (fuel n : ℕ) → n < fuel → read_digits 0 (digits fuel n) ≡ n
unfolding digits read_digits
read_digits-digits zero n h = absurd (omega arith)
read_digits-digits (suc fuel) n h = elim (Bool-cases (ltb n 10)) [
  | inl small ↦ rw small (omega arith)
  | inr large ↦
      rw (large, read_digits-append (digits fuel (n / 10)) 0 (48 + n % 10))
        (ground (arith, large, h, read_digits-digits fuel (n / 10)))
]

all_digits-digits : (fuel n : ℕ) → all_digits (digits fuel n) ≡ true
unfolding digits all_digits
all_digits-digits zero n = refl
all_digits-digits (suc fuel) n = elim (Bool-cases (ltb n 10)) [
  | inl small ↦ rw small (ground (arith, small))
  | inr large ↦ rw large (
      all_digits-append (digits fuel (n / 10)) (48 + n % 10) (all_digits-digits fuel (n / 10))
        (ground arith))
]

pub read_digits-decimal : (n : ℕ) → read_digits 0 (decimal n) ≡ n
unfolding decimal
read_digits-decimal n = read_digits-digits (suc n) n (omega arith)

pub all_digits-decimal : (n : ℕ) → all_digits (decimal n) ≡ true
unfolding decimal
all_digits-decimal n = all_digits-digits (suc n) n

pub decimal-ne-nil : (n : ℕ) → decimal n ≢ []
unfolding decimal digits
decimal-ne-nil n = elim (Bool-cases (ltb n 10)) [
  | inl small ↦ rw small (λ e. cc)
  | inr large ↦ rw large (append_ne (48 + n % 10) (digits n (n / 10)))
]
  where
    append_ne : (c : ℕ) (s : Bytes) → s ++ (c ∷ []) ≢ []
    append_ne c [] = λ e. cc
    append_ne c (x ∷ s) = λ e. cc

-- Ten to the number that follows.
abbrev pub bound : ℕ → ℕ
bound zero = 10
bound (suc k) = 10 * bound k

length-digits : (k fuel n : ℕ) → n < bound k → length (digits fuel n) ≤ suc k
unfolding digits
length-digits k zero n h = omega arith
length-digits zero (suc fuel) n h = rw (lt→ltb n 10 (omega arith)) (omega arith)
length-digits (suc k) (suc fuel) n h = elim (Bool-cases (ltb n 10)) [
  | inl small ↦ rw small (omega arith)
  | inr large ↦
      rw (large, length-append (digits fuel (n / 10)) ((48 + n % 10) ∷ []))
        (omega (arith, length-digits k fuel (n / 10) (omega arith)))
]

pub length-decimal : (k n : ℕ) → n < bound k → length (decimal n) ≤ suc k
unfolding decimal
length-decimal k n h = length-digits k (suc n) n h

-- "%02d" and the like: a number with the byte `c` before it, up to so many places.
unfoldable pub padded : ℕ → ℕ → ℕ → Bytes
padded c w n = replicate (w - length (decimal n)) c ++ decimal n

pub length-padded : (c k n : ℕ) → n < bound k → length (padded c (suc k) n) ≡ suc k
unfolding padded
length-padded c k n h = omega (
  arith,
  length-append (replicate (suc k - length (decimal n)) c) (decimal n),
  length-replicate (suc k - length (decimal n)) c,
  length-decimal k n h,
)

read_digits-zeros : (m : ℕ) (s : Bytes) → read_digits 0 (replicate m 48 ++ s) ≡ read_digits 0 s
unfolding read_digits
read_digits-zeros zero s = refl
read_digits-zeros (suc m) s = read_digits-zeros m s

pub read_digits-padded : (w n : ℕ) → read_digits 0 (padded 48 w n) ≡ n
unfolding padded
read_digits-padded w n =
    read_digits-zeros (w - length (decimal n)) (decimal n) ∙ read_digits-decimal n
