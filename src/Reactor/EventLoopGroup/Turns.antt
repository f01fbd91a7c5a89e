-- ===== src/Reactor/EventLoopGroup/Turns.antt =====
-- The loops of a group take turns.
use libcpp.Prelude.{
  ℕ, suc, zero, ◌+◌, ◌≤◌, ◌<◌, ◌≡◌, refl, sym, ap, subst, ◌∙◌, true, false, some, List, [], ◌∷◌,
  leb, if◌then◌else◌, ◌>>=◌, length, drop, drop_of_le, arith, Returns, ◌==◌,
}
use libcpp.Reactor.EventLoopGroup.{EventLoopGroup, at, get_next_loop, get_next_loops}

at-drop :
    (l : List ℕ) (i : ℕ)
    → i < length l
    → (x : ℕ) × (at l i ≡ some x) × (drop i l ≡ x ∷ drop (suc i) l)
at-drop [] i h = let never : ⊥ = omega arith in absurd never
at-drop (x ∷ l) zero h = (x, refl, refl)
at-drop (x ∷ l) (suc i) h = let (y, e, d) = at-drop l i (omega arith) in (y, e, d)

get_next_loops-zero : (base : ℕ) (g : EventLoopGroup) → get_next_loops zero base g ≡ some ([], g)
unfolding get_next_loops
get_next_loops-zero base g = refl

get_next_loops-suc :
    (n base : ℕ) (g : EventLoopGroup)
    → get_next_loops (suc n) base g ≡ (
        get_next_loop base true g >>= λ r.
        get_next_loops n base r.1 >>= λ rs. some (r.0 ∷ rs.0, rs.1))
unfolding get_next_loops
get_next_loops-suc n base g = refl

module _ (base : ℕ) (g : EventLoopGroup) where
  from : ℕ → EventLoopGroup
  from i = record g { next = i }

  plus_one : (i : ℕ) → suc i ≡ i + 1
  plus_one i = omega arith

  one_turn :
      (i : ℕ)
      → i < length g.loops
      → (x : ℕ) × (get_next_loop base true (from i)
          ≡ some (x, from (if leb (length g.loops) (i + 1) then 0 else i + 1)))
        × (drop i g.loops ≡ x ∷ drop (i + 1) g.loops)
  unfolding get_next_loop from
  one_turn i h =
      let (x, e, d) = at-drop g.loops i h in
      (x, simp (some_loops i h, e) refl, d ∙ ap (λ k. x ∷ drop k g.loops) (plus_one i))
    where
      some_loops : (i : ℕ) → i < length g.loops → (length g.loops == 0) ≡ false
      some_loops i h = ground arith

  wraps : (i : ℕ) → length g.loops ≤ i + 1 → leb (length g.loops) (i + 1) ≡ true
  wraps i h = ground (arith, h)

  goes_on : (i : ℕ) → i + 1 < length g.loops → leb (length g.loops) (i + 1) ≡ false
  goes_on i h = ground (arith, h)

  turns :
      (n i : ℕ)
      → i + suc n ≡ length g.loops
      → get_next_loops (suc n) base (from i) ≡ some (drop i g.loops, from 0)
  turns zero i h =
      let (x, e, d) = one_turn i (omega arith) in
      simp
        (
          get_next_loops-suc zero base (from i),
          e,
          get_next_loops-zero base,
          d,
          drop_of_le (i + 1) g.loops (omega arith),
          wraps i (omega arith),
        )
        refl
  turns (suc n) i h =
      let (x, e, d) = one_turn i (omega arith) in
      simp
        (
          get_next_loops-suc (suc n) base (from i),
          e,
          goes_on i (omega arith),
          turns n (i + 1) (omega arith),
          d,
        )
        refl

  whole_turn :
      (n : ℕ)
      → n ≡ length g.loops
      → 0 < n
      → g.next ≡ 0
      → Returns
          (λ r. (r.0 ≡ g.loops) × (r.1.loops ≡ g.loops) × (r.1.next ≡ 0))
          (get_next_loops n base g)
  unfolding from
  whole_turn zero e h z = let never : ⊥ = omega arith in absurd never
  whole_turn (suc n) e h z =
      rw
        (subst (λ g'. get_next_loops (suc n) base g' ≡ some (g.loops, from 0)) (ap from (sym z))
          (turns n 0 (omega arith)))
        (refl, refl, refl)

-- As many calls of `getNextLoop` as the group has loops, from its first loop on, give each loop once
-- and in order, and come back to the first. (There must be a loop.)
pub get_next_loops_lem :
    (base : ℕ) (g : EventLoopGroup)
    → 0 < length g.loops
    → g.next ≡ 0
    → Returns
        (λ r. (r.0 ≡ g.loops) × (r.1.loops ≡ g.loops) × (r.1.next ≡ 0))
        (get_next_loops (length g.loops) base g)
get_next_loops_lem base g h z = whole_turn base g (length g.loops) refl h z
