-- ===== src/Datetime/TimerQueue/Invariant.antt =====
-- The two sets of class TimerQueue hold the same timers, and no assertion fails.
use libcpp.Prelude.{ℕ, suc, ◌≡◌, ap, sym, ◌∙◌, true, false, ◌&&◌, some, arith, ◌==◌, length}
use libcpp.Datetime.PairSet.{
  mem, insert, erase, IsSorted, insert-IsSorted, erase-IsSorted, mem-insert, mem-erase,
  length-insert, length-erase,
}
use libcpp.Datetime.Timer.{Timer}
use libcpp.Datetime.TimerQueue.{
  TimerQueue, entry, active_timer, insert_timer, reset_timerfd, delete, is_earliest, update_at,
}

pub record Inv (q : TimerQueue) : Type 0 where
  pub sorted_timers : IsSorted q.timers
  pub sorted_active : IsSorted q.active_timers
  pub keyed : (t p : ℕ) → mem (t, p) q.timers ≡ true → (q.heap p).expiration ≡ t
  pub agree :
      (p s : ℕ)
      → mem (p, s) q.active_timers ≡ (mem (entry q p) q.timers && s == (q.heap p).sequence)
  pub same_size : length q.active_timers ≡ length q.timers
  pub alive : (t p : ℕ) → mem (t, p) q.timers ≡ true → q.live p ≡ true

-- The queue with the timer at `ptr` in both sets.
abbrev pub with_timer : ℕ → TimerQueue → TimerQueue
with_timer ptr q = record q {
  timers = insert (entry q ptr) q.timers;
  active_timers = insert (active_timer q ptr) q.active_timers;
}

module _ (ptr : ℕ) (q : TimerQueue) (v : Inv q) (fresh : mem (entry q ptr) q.timers ≡ false) where
  not_active : mem (active_timer q ptr) q.active_timers ≡ false
  not_active = v.agree ptr (q.heap ptr).sequence ∙ (rw fresh)

  pub insert_timer-eq :
      insert_timer ptr q ≡ some (is_earliest (q.heap ptr).expiration q.timers, with_timer ptr q)
  unfolding insert_timer
  insert_timer-eq = rw (fresh, not_active)

  pub with_timer-Inv : q.live ptr ≡ true → Inv (with_timer ptr q)
  with_timer-Inv h = record {
    sorted_timers = insert-IsSorted (entry q ptr) q.timers v.sorted_timers;
    sorted_active = insert-IsSorted (active_timer q ptr) q.active_timers v.sorted_active;
    keyed = λ t p m. ground (arith, mem-insert (t, p) (entry q ptr) q.timers, v.keyed t p);
    agree = λ p s. ground (
      arith,
      mem-insert (p, s) (active_timer q ptr) q.active_timers,
      mem-insert (entry q p) (entry q ptr) q.timers,
      v.agree p s,
    );
    same_size =
        length-insert (active_timer q ptr) q.active_timers not_active
        ∙ ap suc v.same_size
        ∙ sym (length-insert (entry q ptr) q.timers fresh);
    alive = λ t p m. ground (arith, mem-insert (t, p) (entry q ptr) q.timers, v.alive t p);
  }

-- The queue without the timer at `ptr`, which stays allocated.
abbrev pub without_timer : ℕ → TimerQueue → TimerQueue
without_timer ptr q = record q {
  timers = erase (entry q ptr) q.timers;
  active_timers = erase (active_timer q ptr) q.active_timers;
}

module _ (ptr : ℕ) (q : TimerQueue) (v : Inv q) (there : mem (entry q ptr) q.timers ≡ true) where
  pub is_active : mem (active_timer q ptr) q.active_timers ≡ true
  is_active = ground (arith, v.agree ptr (q.heap ptr).sequence)

  pub without_timer-Inv : Inv (without_timer ptr q)
  without_timer-Inv = record {
    sorted_timers = erase-IsSorted (entry q ptr) q.timers v.sorted_timers;
    sorted_active = erase-IsSorted (active_timer q ptr) q.active_timers v.sorted_active;
    keyed = λ t p m.
        ground (arith, mem-erase (t, p) (entry q ptr) q.timers v.sorted_timers, v.keyed t p);
    agree = λ p s. ground (
      arith,
      mem-erase (p, s) (active_timer q ptr) q.active_timers v.sorted_active,
      mem-erase (entry q p) (entry q ptr) q.timers v.sorted_timers,
      v.agree p s,
    );
    same_size = omega (
      arith,
      v.same_size,
      length-erase (active_timer q ptr) q.active_timers is_active,
      length-erase (entry q ptr) q.timers there,
    );
    alive = λ t p m.
        ground (arith, mem-erase (t, p) (entry q ptr) q.timers v.sorted_timers, v.alive t p);
  }

-- A timer that is in neither set may be freed.
pub delete-Inv :
    (ptr : ℕ) (q : TimerQueue)
    → Inv q
    → ((t : ℕ) → mem (t, ptr) q.timers ≡ false)
    → Inv (delete ptr q)
unfolding delete
delete-Inv ptr q v out = record {
  sorted_timers = v.sorted_timers;
  sorted_active = v.sorted_active;
  keyed = v.keyed;
  agree = v.agree;
  same_size = v.same_size;
  alive = λ t p m. ground (arith, v.alive t p, out t);
}

pub gone :
    (ptr : ℕ) (q : TimerQueue) → Inv q → (t : ℕ) → mem (t, ptr) (without_timer ptr q).timers ≡ false
gone ptr q v t =
    ground (arith, mem-erase (t, ptr) (entry q ptr) q.timers v.sorted_timers, v.keyed t ptr)

-- No entry of either set is for an address that is free.
pub dead :
    (ptr : ℕ) (q : TimerQueue)
    → Inv q
    → q.live ptr ≡ false
    → (t : ℕ) → mem (t, ptr) q.timers ≡ false
dead ptr q v h t = ground (arith, v.alive t ptr)

-- A timer that is in neither set may change.
pub rewrite-Inv :
    (ptr : ℕ) (timer : Timer) (q : TimerQueue)
    → Inv q
    → ((t : ℕ) → mem (t, ptr) q.timers ≡ false)
    → Inv (record q { heap = update_at q.heap ptr timer })
rewrite-Inv ptr timer q v out = record {
  sorted_timers = v.sorted_timers;
  sorted_active = v.sorted_active;
  keyed = λ t p m. ground (arith, v.keyed t p, out t);
  agree = λ p s. ground (arith, v.agree p s, out (q.heap p).expiration, out timer.expiration);
  same_size = v.same_size;
  alive = v.alive;
}

pub reset_timerfd-Inv : (when : ℕ) (q : TimerQueue) → Inv q → Inv (reset_timerfd when q)
unfolding reset_timerfd
reset_timerfd-Inv when q v = record {
  sorted_timers = v.sorted_timers;
  sorted_active = v.sorted_active;
  keyed = v.keyed;
  agree = v.agree;
  same_size = v.same_size;
  alive = v.alive;
}
