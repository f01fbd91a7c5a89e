-- ===== src/Prelude/Maps.antt =====
-- `std::map` with numbers for keys, as an association list: `find`, `erase`, and `m[k] = a`.
use Prim.Native.Nat.{ℕ}
use mathlib.Core.Path.{◌≡◌, refl}
use mathlib.Core.Logic.{inl, inr}
use mathlib.Core.Option.{Option, none, some}
use mathlib.Core.List.{List, [], ◌∷◌}
use native.Mathlib.Omega.{arith}
use libcpp.Prelude.Tests.{◌==◌, if◌then◌else◌, Bool-cases}

module _ {ℓ} {A : Type ℓ} where
  unfoldable pub find : ℕ → List (ℕ × A) → Option A
  find k [] = none
  find k ((c, a) ∷ l) = if k == c then some a else find k l

  unfoldable pub erase : ℕ → List (ℕ × A) → List (ℕ × A)
  erase k [] = []
  erase k ((c, a) ∷ l) = let rest = erase k l in if k == c then rest else (c, a) ∷ rest

  abbrev pub put : ℕ → A → List (ℕ × A) → List (ℕ × A)
  put k a l = (k, a) ∷ erase k l

  pub find-erase :
      (c d : ℕ) (l : List (ℕ × A)) → find c (erase d l) ≡ (if c == d then none else find c l)
  unfolding find erase
  find-erase c d [] = elim (Bool-cases (c == d)) [ inl e ↦ rw e refl | inr e ↦ rw e refl ]
  find-erase c d ((k, s) ∷ l) = elim (Bool-cases (d == k)) [
    | inl e ↦
        rw (e, find-erase c d l)
          (elim (Bool-cases (c == d)) [ inl q ↦ rw q refl | inr q ↦ rw q (ground (arith, e, q)) ])
    | inr e ↦
        rw (e, find-erase c d l)
          (elim (Bool-cases (c == k)) [ inl q ↦ rw q (ground (arith, e, q)) | inr q ↦ rw q refl ])
  ]

  pub find-put :
      (c d : ℕ) (a : A) (l : List (ℕ × A))
      → find c (put d a l) ≡ (if c == d then some a else find c l)
  unfolding find
  find-put c d a l = elim (Bool-cases (c == d)) [
    | inl e ↦ rw e refl
    | inr e ↦ rw (e, find-erase c d l, e) refl
  ]
