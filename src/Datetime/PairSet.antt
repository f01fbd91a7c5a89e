-- ===== src/Datetime/PairSet.antt =====
-- `std::set` of pairs of numbers: a list in strict lexicographic order.
use libcpp.Prelude.{
  ℕ, suc, ◌≡◌, refl, inl, inr, Bool, true, false, not, ◌&&◌, ◌||◌, List, [], ◌∷◌, ◌++◌, arith, ltb,
  ◌==◌, if◌then◌else◌, Bool-cases, length,
}

abbrev pub Pair : Type 0
Pair = ℕ × ℕ

abbrev pub pair_lt : Pair → Pair → Bool
pair_lt (a, b) (c, d) = ltb a c || (a == c && ltb b d)

abbrev pub pair_eq : Pair → Pair → Bool
pair_eq (a, b) (c, d) = a == c && b == d

unfoldable pub mem : Pair → List Pair → Bool
mem x [] = false
mem x (y ∷ l) = pair_eq x y || mem x l

-- `insert`: an element that is there stays.
unfoldable pub insert : Pair → List Pair → List Pair
insert x [] = x ∷ []
insert x (y ∷ l) = if pair_lt x y then x ∷ y ∷ l else if pair_eq x y then y ∷ l else y ∷ insert x l

-- `erase` by value. It returned 1 if the element was there, and else 0.
unfoldable pub erase : Pair → List Pair → List Pair
erase x [] = []
erase x (y ∷ l) = if pair_eq x y then l else y ∷ erase x l

-- The elements before `lower_bound(s)`, and those from it on.
unfoldable pub before : Pair → List Pair → List Pair
before s [] = []
before s (y ∷ l) = if pair_lt y s then y ∷ before s l else []

unfoldable pub from : Pair → List Pair → List Pair
from s [] = []
from s (y ∷ l) = if pair_lt y s then from s l else y ∷ l

-- All of `l` comes after `x`.
abbrev pub Above : Pair → List Pair → Type 0
Above x [] = Unit {0}
Above x (y ∷ l) = (pair_lt x y ≡ true) × Above x l

abbrev pub IsSorted : List Pair → Type 0
IsSorted [] = Unit {0}
IsSorted (x ∷ l) = Above x l × IsSorted l

lt_trans : (x y z : Pair) → pair_lt x y ≡ true → pair_lt y z ≡ true → pair_lt x z ≡ true
lt_trans (a, b) (c, d) (e, f) h k = ground arith

Above-trans : (x y : Pair) (l : List Pair) → pair_lt x y ≡ true → Above y l → Above x l
Above-trans x y [] h a = tt
Above-trans x y (z ∷ l) h a = (lt_trans x y z h a.0, Above-trans x y l h a.1)

lt_or : (x y : Pair) → pair_lt x y ≡ false → pair_eq x y ≡ false → pair_lt y x ≡ true
lt_or (a, b) (c, d) h k = ground arith

lt_irrefl : (x y : Pair) → pair_lt x y ≡ true → pair_eq x y ≡ false
lt_irrefl (a, b) (c, d) h = ground arith

pub eq_refl : (x : Pair) → pair_eq x x ≡ true
eq_refl (a, b) = ground arith

eq_trans : (x y z : Pair) → pair_eq x y ≡ true → pair_eq x z ≡ pair_eq y z
eq_trans (a, b) (c, d) (e, f) h = ground arith

pub not-mem-Above : (x : Pair) (l : List Pair) → Above x l → mem x l ≡ false
unfolding mem
not-mem-Above x [] a = refl
not-mem-Above x (y ∷ l) a = rw (lt_irrefl x y a.0, not-mem-Above x l a.1) refl

pub Above-insert :
    (x y : Pair) (l : List Pair) → pair_lt y x ≡ true → Above y l → Above y (insert x l)
unfolding insert
Above-insert x y [] h a = (h, tt)
Above-insert x y (z ∷ l) h a = ground (arith, Above-insert x y l h a.1)

pub insert-IsSorted : (x : Pair) (l : List Pair) → IsSorted l → IsSorted (insert x l)
unfolding insert
insert-IsSorted x [] s = (tt, tt)
insert-IsSorted x (y ∷ l) s = elim (Bool-cases (pair_lt x y)) [
  | inl t ↦ rw t ((t, Above-trans x y l t s.0), s)
  | inr t ↦ elim (Bool-cases (pair_eq x y)) [
    | inl e ↦ rw (t, e) s
    | inr e ↦ rw (t, e) (Above-insert x y l (lt_or x y t e) s.0, insert-IsSorted x l s.1)
  ]
]

pub mem-insert : (x y : Pair) (l : List Pair) → mem x (insert y l) ≡ (pair_eq x y || mem x l)
unfolding mem insert
mem-insert x y [] = refl
mem-insert x y (z ∷ l) = ground (arith, mem-insert x y l, eq_trans y z x)

pub length-insert :
    (x : Pair) (l : List Pair) → mem x l ≡ false → length (insert x l) ≡ suc (length l)
unfolding mem insert
length-insert x [] h = refl
length-insert x (y ∷ l) h = ground (arith, length-insert x l)

pub Above-erase : (x y : Pair) (l : List Pair) → Above y l → Above y (erase x l)
unfolding erase
Above-erase x y [] a = tt
Above-erase x y (z ∷ l) a = ground (arith, Above-erase x y l a.1)

pub erase-IsSorted : (x : Pair) (l : List Pair) → IsSorted l → IsSorted (erase x l)
unfolding erase
erase-IsSorted x [] s = tt
erase-IsSorted x (y ∷ l) s = ground (arith, erase-IsSorted x l s.1, Above-erase x y l s.0)

pub mem-erase :
    (x y : Pair) (l : List Pair) → IsSorted l → mem x (erase y l) ≡ (not (pair_eq x y) && mem x l)
unfolding mem erase
mem-erase x y [] s = ground arith
mem-erase x y (z ∷ l) s = ground (arith, mem-erase x y l s.1, not-mem-Above z l s.0)

pub length-erase : (x : Pair) (l : List Pair) → mem x l ≡ true → length l ≡ suc (length (erase x l))
unfolding mem erase
length-erase x [] h = cc
length-erase x (y ∷ l) h = ground (arith, length-erase x l)

pub before-append-from : (s : Pair) (l : List Pair) → before s l ++ from s l ≡ l
unfolding before from
before-append-from s [] = refl
before-append-from s (y ∷ l) = ground (arith, before-append-from s l)

pub from-IsSorted : (s : Pair) (l : List Pair) → IsSorted l → IsSorted (from s l)
unfolding from
from-IsSorted s [] h = tt
from-IsSorted s (y ∷ l) h = ground (arith, from-IsSorted s l h.1)

pub mem-cons : (x : Pair) (l : List Pair) → mem x (x ∷ l) ≡ true
unfolding mem
mem-cons x l = rw (eq_refl x)
