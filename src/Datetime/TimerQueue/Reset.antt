-- ===== src/Datetime/TimerQueue/Reset.antt =====
-- `reset`: what becomes of the expired timers once their callbacks have run.
use libcpp.Prelude.{
  ℕ, ◌+◌, ◌≡◌, ◌≢◌, refl, sym, ◌∙◌, inl, inr, Bool, true, false, not, ◌⊎◌, some, List, [], ◌∷◌,
  arith, ltb, ==_iff, Bool-cases, Returns, Returns-bind, ◌&&◌,
}
use libcpp.Datetime.PairSet.{mem-cons, Pair, mem, mem-insert, eq_refl}
use libcpp.Datetime.Timer.{restart}
use libcpp.Datetime.TimerQueue.{
  TimerQueue, entry, active_timer, update_at, delete, reset_one, reset_all, rearm, reset,
  reset_timerfd,
}
use libcpp.Datetime.TimerQueue.Invariant.{
  Inv, with_timer, insert_timer-eq, with_timer-Inv, delete-Inv, rewrite-Inv, reset_timerfd-Inv,
}

-- A timer that is allocated and in neither set.
pub record IsIdle (q : TimerQueue) (ptr : ℕ) : Type 0 where
  pub allocated : q.live ptr ≡ true
  pub out : (t : ℕ) → mem (t, ptr) q.timers ≡ false

-- A timer goes back into the queue if it repeats and its callback did not cancel it.
abbrev pub goes_on : TimerQueue → ℕ → Bool
goes_on q ptr = (q.heap ptr).repeat && not (mem (active_timer q ptr) q.canceling_timers)

-- What one round leaves: a timer that goes on waits for one interval from now; another is freed.
pub record Settled (now ptr : ℕ) (q q' : TimerQueue) : Type 0 where
  pub inv : Inv q'
  pub next : mem (now + (q.heap ptr).interval, ptr) q'.timers ≡ goes_on q ptr
  pub kept : q'.live ptr ≡ goes_on q ptr
  pub others : (p : ℕ) → ptr ≢ p → IsIdle q p → IsIdle q' p

module _ (now ptr : ℕ) (q : TimerQueue) (v : Inv q) (idle : IsIdle q ptr) where
  restarted : TimerQueue
  restarted = record q { heap = update_at q.heap ptr (restart now (q.heap ptr)) }

  restarted-time :
      (q.heap ptr).repeat ≡ true → (restarted.heap ptr).expiration ≡ now + (q.heap ptr).interval
  unfolding restarted restart
  restarted-time h = rw ((==_iff ptr ptr).1 refl, h)

  restarted-Inv : Inv restarted
  unfolding restarted
  restarted-Inv = rewrite-Inv ptr (restart now (q.heap ptr)) q v idle.out

  again :
      (q.heap ptr).repeat ≡ true
      → goes_on q ptr ≡ true
      → Settled now ptr q (with_timer ptr restarted)
  unfolding restarted
  again h g = record {
    inv = with_timer-Inv ptr restarted restarted-Inv (idle.out _) idle.allocated;
    next =
        mem-insert (now + (q.heap ptr).interval, ptr) (entry restarted ptr) q.timers
        ∙ (rw (restarted-time h, eq_refl (now + (q.heap ptr).interval, ptr)) (sym g));
    kept = idle.allocated ∙ sym g;
    others = λ p ne i. record {
      allocated = i.allocated;
      out = λ t. ground (arith, mem-insert (t, p) (entry restarted ptr) q.timers, i.out t, ne);
    };
  }

  freed : goes_on q ptr ≡ false → Settled now ptr q (delete ptr q)
  unfolding delete
  freed g = record {
    inv = delete-Inv ptr q v idle.out;
    next = idle.out _ ∙ sym g;
    kept = ground arith;
    others = λ p ne i. record { allocated = ground (arith, i.allocated, ne); out = i.out };
  }

  -- One round of `reset`, in a valid queue, on an allocated timer that is in neither set, fails no
  -- assertion. A timer that repeats and was not cancelled waits again, for one interval from now;
  -- any other is freed; and the queue stays valid.
  pub reset_one-Settled : Returns (Settled now ptr q) (reset_one now ptr q)
  unfolding reset_one restarted
  reset_one-Settled = elim (Bool-cases (goes_on q ptr)) [
    | inl t ↦
        rw (t, insert_timer-eq ptr restarted restarted-Inv (idle.out _))
          (again (ground (arith, t)) t)
    | inr t ↦ rw t (freed t)
  ]

-- The expired timers are idle, and no two entries are for one timer.
abbrev pub Apart : ℕ → List Pair → Type 0
Apart ptr [] = Unit {0}
Apart ptr ((t, p) ∷ l) = (ptr ≢ p) × Apart ptr l

abbrev pub Ready : TimerQueue → List Pair → Type 0
Ready q [] = Unit {0}
Ready q ((t, p) ∷ l) = IsIdle q p × Apart p l × Ready q l

Ready-Settled :
    (now ptr : ℕ) (q q' : TimerQueue) (l : List Pair)
    → Settled now ptr q q'
    → Apart ptr l
    → Ready q l
    → Ready q' l
Ready-Settled now ptr q q' [] s a r = tt
Ready-Settled now ptr q q' ((t, p) ∷ l) s a r =
    (s.others p a.0 r.0, r.1, Ready-Settled now ptr q q' l s a.1 r.2)

pub reset_all-Inv :
    (now : ℕ) (expired : List Pair) (q : TimerQueue)
    → Inv q
    → Ready q expired
    → Returns Inv (reset_all now expired q)
unfolding reset_all
reset_all-Inv now [] q v r = v
reset_all-Inv now ((t, p) ∷ expired) q v r =
    Returns-bind (Settled now p q) Inv (reset_one now p q) _ (reset_one-Settled now p q v r.0)
      λ q' s. reset_all-Inv now expired q' s.inv (Ready-Settled now p q q' expired s r.1 r.2)

-- The timerfd is set for the first timer, if its time is valid.
abbrev pub Armed : TimerQueue → List Pair → Type 0
Armed q [] = Unit {0}
Armed q ((t, p) ∷ l) = (t ≡ 0) ⊎ (q.armed ≡ some t)

rearm-Inv : (q : TimerQueue) (l : List Pair) → Inv q → Inv (rearm q l)
unfolding rearm
rearm-Inv q [] v = v
rearm-Inv q ((t, p) ∷ l) v = elim (Bool-cases (ltb 0 (q.heap p).expiration)) [
  | inl h ↦ rw h (reset_timerfd-Inv (q.heap p).expiration q v)
  | inr h ↦ rw h v
]

rearm-timers : (q : TimerQueue) (l : List Pair) → (rearm q l).timers ≡ q.timers
unfolding rearm reset_timerfd
rearm-timers q [] = refl
rearm-timers q ((t, p) ∷ l) = ground arith

rearm-Armed : (q : TimerQueue) (l : List Pair) → Inv q → q.timers ≡ l → Armed (rearm q l) l
unfolding rearm reset_timerfd
rearm-Armed q [] v e = tt
rearm-Armed q ((t, p) ∷ l) v e = ground (arith, key)
  where
    key : (q.heap p).expiration ≡ t
    key = v.keyed t p (rw e (mem-cons (t, p) l))

-- In a valid queue `reset` of distinct allocated timers that are in neither set fails no assertion.
-- It keeps the queue valid, and leaves the timerfd set for the first timer of the queue, if that
-- has a valid time.
pub reset-Armed :
    (now : ℕ) (expired : List Pair) (q : TimerQueue)
    → Inv q
    → Ready q expired
    → Returns (λ q'. Inv q' × Armed q' q'.timers) (reset now expired q)
unfolding reset
reset-Armed now expired q v r =
    Returns-bind Inv (λ q'. Inv q' × Armed q' q'.timers) (reset_all now expired q) _
      (reset_all-Inv now expired q v r)
      λ q' w.
        (rearm-Inv q' q'.timers w, rw (rearm-timers q' q'.timers) (rearm-Armed q' q'.timers w refl))
