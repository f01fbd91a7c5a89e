-- ===== src/Datetime/TimerQueue/Expired.antt =====
-- `getExpired`: the timers that are due, and no others, leave the queue.
use libcpp.Prelude.{
  ℕ, ◌≤◌, ◌<◌, ◌≡◌, refl, sym, subst, inl, inr, true, false, List, [], ◌∷◌, ◌++◌, arith, Bool-cases,
  Returns,
}
use libcpp.Datetime.PairSet.{
  Pair, pair_lt, mem, erase, before, from, IsSorted, Above, before-append-from, eq_refl,
}
use libcpp.Datetime.TimerQueue.{
  TimerQueue, entry, active_timer, uintptr_max, all_later, erase_active, get_expired,
}
use libcpp.Datetime.TimerQueue.Invariant.{Inv, without_timer, without_timer-Inv}

-- Every time is at most `now`; every time is later; every address is below the greatest.
abbrev pub Due : ℕ → List Pair → Type 0
Due now [] = Unit {0}
Due now ((t, p) ∷ l) = (t ≤ now) × Due now l

abbrev pub Later : ℕ → List Pair → Type 0
Later now [] = Unit {0}
Later now ((t, p) ∷ l) = (now < t) × Later now l

abbrev pub Addresses : List Pair → Type 0
Addresses [] = Unit {0}
Addresses ((t, p) ∷ l) = (p < uintptr_max) × Addresses l

before-Due : (now : ℕ) (l : List Pair) → Due now (before (now, uintptr_max) l)
unfolding before
before-Due now [] = tt
before-Due now ((t, p) ∷ l) = ground (arith, before-Due now l)

Above-Later : (now t p : ℕ) (l : List Pair) → now < t → Above (t, p) l → Later now l
Above-Later now t p [] h a = tt
Above-Later now t p ((u, r) ∷ l) h a = (ground arith, Above-Later now t p l h a.1)

from-Later :
    (now : ℕ) (l : List Pair) → IsSorted l → Addresses l → Later now (from (now, uintptr_max) l)
unfolding from
from-Later now [] s b = tt
from-Later now ((t, p) ∷ l) s b = elim (Bool-cases (pair_lt (t, p) (now, uintptr_max))) [
  | inl h ↦ rw h (from-Later now l s.1 b.1)
  | inr h ↦ rw h (later h, Above-Later now t p l (later h) s.0)
]
  where
    later : pair_lt (t, p) (now, uintptr_max) ≡ false → now < t
    later h = ground (arith, b.0)

Later-all_later : (now : ℕ) (l : List Pair) → Later now l → all_later now l ≡ true
Later-all_later now [] h = refl
Later-all_later now ((t, p) ∷ l) h = ground (arith, h.0)

-- The first timer of the queue is keyed by its own time.
first_entry :
    (q : TimerQueue) (t p : ℕ) (l : List Pair)
    → Inv q
    → q.timers ≡ (t, p) ∷ l
    → (mem (entry q p) q.timers ≡ true) × (erase (entry q p) q.timers ≡ l)
unfolding mem erase
first_entry q t p l v e = (rw (key, e, eq_refl (t, p)), rw (key, e, eq_refl (t, p)))
  where
    key : (q.heap p).expiration ≡ t
    key = v.keyed t p (rw (e, eq_refl (t, p)))

erase_active-Inv :
    (expired rest : List Pair) (q : TimerQueue)
    → Inv q
    → q.timers ≡ expired ++ rest
    → Inv (erase_active expired (record q { timers = rest }))
unfolding erase_active
erase_active-Inv [] rest q v e = subst (λ l. Inv (record q { timers = l })) e v
erase_active-Inv ((t, p) ∷ expired) rest q v e =
    let (there, left) = first_entry q t p (expired ++ rest) v e in
    erase_active-Inv expired rest (without_timer p q) (without_timer-Inv p q v there) left

erase_active-timers :
    (expired : List Pair) (q : TimerQueue) → (erase_active expired q).timers ≡ q.timers
unfolding erase_active
erase_active-timers [] q = refl
erase_active-timers ((t, p) ∷ expired) q =
    erase_active-timers expired
      (record q { active_timers = erase (active_timer q p) q.active_timers })

-- What `getExpired` returns at `now`, with the queue that it leaves.
pub record Split (now : ℕ) (q : TimerQueue) (r : List Pair × TimerQueue) : Type 0 where
  pub inv : Inv r.1
  pub whole : r.0 ++ r.1.timers ≡ q.timers
  pub due : Due now r.0
  pub rest : Later now r.1.timers

-- In a valid queue of timers whose addresses are below the greatest, `getExpired` fails no
-- assertion. It returns, in order, exactly the timers whose
-- time is at most `now`; those that stay are later, and the queue stays valid.
pub get_expired-Split :
    (now : ℕ) (q : TimerQueue)
    → Inv q
    → Addresses q.timers
    → Returns (Split now q) (get_expired now q)
unfolding get_expired
get_expired-Split now q v b =
    rw (Later-all_later now (from (now, uintptr_max) q.timers) later) (record {
      inv =
          erase_active-Inv (before (now, uintptr_max) q.timers) (from (now, uintptr_max) q.timers) q
            v (sym whole);
      whole = rw kept whole;
      due = before-Due now q.timers;
      rest = rw kept later;
    })
  where
    later : Later now (from (now, uintptr_max) q.timers)
    later = from-Later now q.timers v.sorted_timers b

    whole : before (now, uintptr_max) q.timers ++ from (now, uintptr_max) q.timers ≡ q.timers
    whole = before-append-from (now, uintptr_max) q.timers

    kept :
        (erase_active
          (before (now, uintptr_max) q.timers)
          (record q { timers = from (now, uintptr_max) q.timers })).timers
        ≡ from (now, uintptr_max) q.timers
    kept = erase_active-timers (before (now, uintptr_max) q.timers) _
