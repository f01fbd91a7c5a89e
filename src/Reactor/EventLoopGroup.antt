-- ===== src/Reactor/EventLoopGroup.antt =====
-- src/reactor/EventLoopGroup.h and src/reactor/EventLoopGroup.cc: loops in threads of their own, which
-- are given out in turn. A loop is its address.
pub mod Turns
mod Tests
use libcpp.Prelude.{
  ◌==◌, ℕ, suc, zero, ◌+◌, ◌-◌, ◌≤◌, ◌<◌, ◌≡◌, refl, sym, ap, ◌∙◌, Bool, true, false, inl, inr,
  Option, none, some, List, [], ◌∷◌, ◌++◌, ltb, leb, if◌then◌else◌, ◌>>=◌, ◌>>◌, assert, length,
  drop, arith, Returns, Bool-cases,
}

pub record EventLoopGroup : Type 0 where
  pub started : Bool
  pub num_threads : ℕ
  pub next : ℕ
  pub loops : List ℕ

-- The constructor and `setThreadNum`.
abbrev pub init : ℕ → EventLoopGroup
init num_threads = record { started = false; num_threads = num_threads; next = 0; loops = [] }

-- The loops of `n` new threads; `address` has that of each.
unfoldable pub spawn : (ℕ → ℕ) → ℕ → List ℕ
spawn address zero = []
spawn address (suc n) = spawn address n ++ (address n ∷ [])

unfoldable pub start : Bool → (ℕ → ℕ) → EventLoopGroup → Option EventLoopGroup
start in_loop address g = do
  assert in_loop
  some (
      if g.started
      then g
      else record g { started = true; loops = g.loops ++ spawn address g.num_threads })

-- Indexing of a vector; out of range is `none`.
abbrev pub at : List ℕ → ℕ → Option ℕ
at [] i = none
at (x ∷ l) zero = some x
at (x ∷ l) (suc i) = at l i

unfoldable pub get_next_loop : ℕ → Bool → EventLoopGroup → Option (ℕ × EventLoopGroup)
get_next_loop base in_loop g = do
  assert in_loop
  if length g.loops == 0
      then some (base, g)
      else (at g.loops g.next >>= λ loop.
          some
            (loop, record g { next = if leb (length g.loops) (g.next + 1) then 0 else g.next + 1 }))

-- The loops that `n` calls give.
unfoldable pub get_next_loops : ℕ → ℕ → EventLoopGroup → Option (List ℕ × EventLoopGroup)
get_next_loops zero base g = some ([], g)
get_next_loops (suc n) base g = do
  (loop, g') ← get_next_loop base true g
  (loops, g'') ← get_next_loops n base g'
  some (loop ∷ loops, g'')
