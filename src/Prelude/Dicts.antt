-- ===== src/Prelude/Dicts.antt =====
-- `std::map` with strings for keys, as an association list in the order of its keys.
pub mod Unique
use mathlib.Core.Path.{◌≡◌, refl, sym, ◌∙◌}
use mathlib.Core.Logic.{inl, inr}
use mathlib.Core.Bool.{true, false}
use mathlib.Core.Option.{Option, none, some}
use mathlib.Core.List.{List, [], ◌∷◌}
use native.Mathlib.Omega.{arith}
use libcpp.Prelude.Tests.{if◌then◌else◌, Bool-cases}
use libcpp.Prelude.Bytes.{Bytes, bytes_eq, bytes_lt, bytes_eq_refl, bytes_eq_sound}

pub bytes_lt_irrefl : (k : Bytes) → bytes_lt k k ≡ false
unfolding bytes_lt
bytes_lt_irrefl [] = refl
bytes_lt_irrefl (x ∷ k) = ground (arith, bytes_lt_irrefl k)

bytes_lt_trans : (j k l : Bytes) → bytes_lt j k ≡ true → bytes_lt k l ≡ true → bytes_lt j l ≡ true
unfolding bytes_lt
bytes_lt_trans [] [] l h i = absurd cc
bytes_lt_trans [] (y ∷ k) [] h i = absurd cc
bytes_lt_trans [] (y ∷ k) (z ∷ l) h i = refl
bytes_lt_trans (x ∷ j) [] l h i = absurd cc
bytes_lt_trans (x ∷ j) (y ∷ k) [] h i = absurd cc
bytes_lt_trans (x ∷ j) (y ∷ k) (z ∷ l) h i = ground (arith, h, i, bytes_lt_trans j k l)

pub bytes_lt_total :
    (j k : Bytes) → bytes_lt j k ≡ false → bytes_eq j k ≡ false → bytes_lt k j ≡ true
unfolding bytes_lt bytes_eq
bytes_lt_total [] [] h i = absurd cc
bytes_lt_total [] (y ∷ k) h i = absurd cc
bytes_lt_total (x ∷ j) [] h i = refl
bytes_lt_total (x ∷ j) (y ∷ k) h i = ground (arith, h, i, bytes_lt_total j k)

-- Two keys in order are not equal.
pub bytes_eq-bytes_lt : (j k : Bytes) → bytes_lt j k ≡ true → bytes_eq j k ≡ false
bytes_eq-bytes_lt j k h = elim (Bool-cases (bytes_eq j k)) [
  | inr e ↦ e
  | inl e ↦ absurd (cc (h, bytes_eq_sound j k e, bytes_lt_irrefl k))
]

pub bytes_eq_sym : (j k : Bytes) → bytes_eq j k ≡ bytes_eq k j
unfolding bytes_eq
bytes_eq_sym [] [] = refl
bytes_eq_sym [] (y ∷ k) = refl
bytes_eq_sym (x ∷ j) [] = refl
bytes_eq_sym (x ∷ j) (y ∷ k) = ground (arith, bytes_eq_sym j k)

module _ {ℓ} {A : Type ℓ} where
  unfoldable pub find : Bytes → List (Bytes × A) → Option A
  find k [] = none
  find k ((f, v) ∷ hs) = if bytes_eq k f then some v else find k hs

  -- `m[k] = v`.
  unfoldable pub set : Bytes → A → List (Bytes × A) → List (Bytes × A)
  set k v [] = (k, v) ∷ []
  set k v ((f, w) ∷ hs) =
      if bytes_lt k f
      then (k, v) ∷ (f, w) ∷ hs
      else if bytes_eq k f
      then (k, v) ∷ hs
      else (f, w) ∷ set k v hs

  unfoldable pub erase : Bytes → List (Bytes × A) → List (Bytes × A)
  erase k [] = []
  erase k ((f, w) ∷ hs) = if bytes_eq k f then hs else (f, w) ∷ erase k hs

  pub find-set :
      (k f : Bytes) (v : A) (hs : List (Bytes × A))
      → find k (set f v hs) ≡ (if bytes_eq k f then some v else find k hs)
  unfolding find set
  find-set k f v [] = refl
  find-set k f v ((g, w) ∷ hs) = elim (Bool-cases (bytes_lt f g)) [
    | inl l ↦ rw l refl
    | inr l ↦ elim (Bool-cases (bytes_eq f g)) [
      | inl e ↦
          rw (l, e, bytes_eq_sound f g e)
            (elim (Bool-cases (bytes_eq k g)) [ inl s ↦ rw s refl | inr s ↦ rw s refl ])
      | inr e ↦
          rw (l, e, find-set k f v hs)
            (elim (Bool-cases (bytes_eq k g)) [
              | inr s ↦ rw s refl
              | inl s ↦ elim (Bool-cases (bytes_eq k f)) [
                | inr t ↦ rw (s, t) refl
                | inl t ↦ absurd (differ e (bytes_eq_sound k f t) (bytes_eq_sound k g s))
              ]
            ])
    ]
  ]
    where
      differ : bytes_eq f g ≡ false → k ≡ f → k ≡ g → ⊥
      differ e a b = cc (e, a, b, bytes_eq_refl k)

  -- All keys are after `k`, and in order.
  abbrev pub Above : Bytes → List (Bytes × A) → Type 0
  Above k [] = Unit
  Above k ((f, v) ∷ hs) = (bytes_lt k f ≡ true) × Above f hs

  abbrev pub Sorted : List (Bytes × A) → Type 0
  Sorted [] = Unit
  Sorted ((f, v) ∷ hs) = Above f hs

  pub Above-lower :
      (j k : Bytes) (hs : List (Bytes × A)) → bytes_lt j k ≡ true → Above k hs → Above j hs
  Above-lower j k [] l h = tt
  Above-lower j k ((f, v) ∷ hs) l (a, h) = (bytes_lt_trans j k f l a, h)

  pub find-Above : (k : Bytes) (hs : List (Bytes × A)) → Above k hs → find k hs ≡ none
  unfolding find
  find-Above k [] h = refl
  find-Above k ((f, v) ∷ hs) (a, h) =
      rw (bytes_eq-bytes_lt k f a) (find-Above k hs (Above-lower k f hs a h))

  set-Above :
      (j k : Bytes) (v : A) (hs : List (Bytes × A))
      → bytes_lt j k ≡ true
      → Above j hs
      → Above j (set k v hs)
  unfolding set
  set-Above j k v [] l h = (l, tt)
  set-Above j k v ((f, w) ∷ hs) l (a, h) = elim (Bool-cases (bytes_lt k f)) [
    | inl m ↦ rw m (l, (m, h))
    | inr m ↦ elim (Bool-cases (bytes_eq k f)) [
      | inl e ↦ rw (m, e) (l, rw (bytes_eq_sound k f e) h)
      | inr e ↦ rw (m, e) (a, set-Above f k v hs (bytes_lt_total k f m e) h)
    ]
  ]

  pub set-Sorted : (k : Bytes) (v : A) (hs : List (Bytes × A)) → Sorted hs → Sorted (set k v hs)
  unfolding set
  set-Sorted k v [] h = tt
  set-Sorted k v ((f, w) ∷ hs) h = elim (Bool-cases (bytes_lt k f)) [
    | inl m ↦ rw m (m, h)
    | inr m ↦ elim (Bool-cases (bytes_eq k f)) [
      | inl e ↦ rw (m, e) (rw (bytes_eq_sound k f e) h)
      | inr e ↦ rw (m, e) (set-Above f k v hs (bytes_lt_total k f m e) h)
    ]
  ]

  erase-Above : (j k : Bytes) (hs : List (Bytes × A)) → Above j hs → Above j (erase k hs)
  unfolding erase
  erase-Above j k [] h = tt
  erase-Above j k ((f, w) ∷ hs) (a, h) = elim (Bool-cases (bytes_eq k f)) [
    | inl e ↦ rw e (Above-lower j f hs a h)
    | inr e ↦ rw e (a, erase-Above f k hs h)
  ]

  pub Above-Sorted : (k : Bytes) (hs : List (Bytes × A)) → Above k hs → Sorted hs
  Above-Sorted k [] h = tt
  Above-Sorted k ((f, v) ∷ hs) (a, h) = h

  pub erase-Sorted : (k : Bytes) (hs : List (Bytes × A)) → Sorted hs → Sorted (erase k hs)
  unfolding erase
  erase-Sorted k [] h = tt
  erase-Sorted k ((f, w) ∷ hs) h = elim (Bool-cases (bytes_eq k f)) [
    | inl e ↦ rw e (Above-Sorted f hs h)
    | inr e ↦ rw e (erase-Above f k hs h)
  ]

  pub find-erase :
      (j k : Bytes) (hs : List (Bytes × A))
      → Sorted hs
      → find j (erase k hs) ≡ (if bytes_eq j k then none else find j hs)
  unfolding find erase
  find-erase j k [] h = elim (Bool-cases (bytes_eq j k)) [ inl e ↦ rw e refl | inr e ↦ rw e refl ]
  find-erase j k ((f, w) ∷ hs) h = elim (Bool-cases (bytes_eq k f)) [
    | inl e ↦ elim (Bool-cases (bytes_eq j k)) [
      | inl q ↦ rw (e, q) (rw (bytes_eq_sound j k q ∙ bytes_eq_sound k f e) (find-Above f hs h))
      | inr q ↦ rw (e, q, sym (bytes_eq_sound k f e), q) refl
    ]
    | inr e ↦ elim (Bool-cases (bytes_eq j f)) [
      | inl q ↦ rw (e, q, bytes_eq_sound j f q, bytes_eq_sym f k, e) refl
      | inr q ↦ rw (e, q, find-erase j k hs (Above-Sorted f hs h)) refl
    ]
  ]
