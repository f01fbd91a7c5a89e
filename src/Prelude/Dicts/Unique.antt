-- ===== src/Prelude/Dicts/Unique.antt =====
-- A sorted association list is determined by what `find` gives.
use mathlib.Core.Path.{◌≡◌, refl, sym, ap, ap₂, subst, ◌∙◌}
use mathlib.Core.Logic.{inl, inr}
use mathlib.Core.Option.{Option, none, some}
use mathlib.Core.Bool.{true}
use mathlib.Core.List.{List, [], ◌∷◌}
use libcpp.Prelude.Tests.{Bool-cases}
use libcpp.Prelude.Bytes.{Bytes, bytes_eq, bytes_lt, bytes_eq_refl, bytes_eq_sound}
use libcpp.Prelude.Dicts.{find, Sorted, Above, Above-Sorted, find-Above, bytes_lt_total}

module _ {ℓ} {A : Type ℓ} where
  Same : List (Bytes × A) → List (Bytes × A) → Type ℓ
  Same l m = (k : Bytes) → find k l ≡ find k m

  value : A → Option A → A
  value a none = a
  value a (some b) = b

  head_found : (f : Bytes) (v : A) (l : List (Bytes × A)) → find f ((f, v) ∷ l) ≡ some v
  unfolding find
  head_found f v l = rw (bytes_eq_refl f) refl

  some_ne_none : (v : A) → some v ≡ none → ⊥
  some_ne_none v e = cc

  -- A key before all others is found in one list only.
  lower :
      (f g : Bytes) (v w : A) (l m : List (Bytes × A))
      → bytes_lt f g ≡ true
      → Above g m
      → Same ((f, v) ∷ l) ((g, w) ∷ m)
      → ⊥
  unfolding Same
  lower f g v w l m o h s =
      some_ne_none v (sym (head_found f v l) ∙ s f ∙ find-Above f ((g, w) ∷ m) (o, h))

  tails :
      (f : Bytes) (v w : A) (l m : List (Bytes × A))
      → Above f l
      → Above f m
      → Same ((f, v) ∷ l) ((f, w) ∷ m)
      → Same l m
  unfolding Same find
  tails f v w l m h i s k = elim (Bool-cases (bytes_eq k f)) [
    | inl e ↦ rw (bytes_eq_sound k f e) (find-Above f l h ∙ sym (find-Above f m i))
    | inr e ↦ rw (e) at (s k)
  ]

  cons_unique :
      (f g : Bytes) (v w : A) (l m : List (Bytes × A))
      → Above f l
      → Above g m
      → Same ((f, v) ∷ l) ((g, w) ∷ m)
      → f ≡ g
      → (Same l m → l ≡ m)
      → (f, v) ∷ l ≡ (g, w) ∷ m
  unfolding Same value
  cons_unique f g v w l m h i s e all =
      let s' : Same ((f, v) ∷ l) ((f, w) ∷ m) = λ k. s k ∙ ap (λ x. find k ((x, w) ∷ m)) (sym e) in
      let i' : Above f m = subst (λ x. Above x m) (sym e) i in
      ap₂ (λ x xs. x ∷ xs)
        (ap₂ (λ x y. (x, y)) e (ap (value v) (sym (head_found f v l) ∙ s' f ∙ head_found f w m)))
        (all (tails f v w l m h i' s'))

  pub Sorted-unique :
      (l m : List (Bytes × A)) → Sorted l → Sorted m → ((k : Bytes) → find k l ≡ find k m) → l ≡ m
  unfolding Same find
  Sorted-unique [] [] h i s = refl
  Sorted-unique [] ((g, w) ∷ m) h i s = absurd (some_ne_none w (sym (s g ∙ head_found g w m)))
  Sorted-unique ((f, v) ∷ l) [] h i s = absurd (some_ne_none v (sym (head_found f v l) ∙ s f))
  Sorted-unique ((f, v) ∷ l) ((g, w) ∷ m) h i s = elim (Bool-cases (bytes_lt f g)) [
    | inl o ↦ absurd (lower f g v w l m o i s)
    | inr o ↦ elim (Bool-cases (bytes_eq f g)) [
      | inr n ↦ absurd (lower g f w v m l (bytes_lt_total f g o n) h (λ k. sym (s k)))
      | inl e ↦
          cons_unique f g v w l m h i s (bytes_eq_sound f g e)
            (Sorted-unique l m (Above-Sorted f l h) (Above-Sorted g m i))
    ]
  ]
