-- ===== src/Datetime/TimerQueue/Cancel.antt =====
-- Adding and cancelling timers, outside and inside their callbacks.
use libcpp.Prelude.{
  ℕ, ◌≡◌, ◌≢◌, refl, ap, inl, inr, true, false, some, arith, ◌==◌, ==_iff, if◌then◌else◌, ◌>>=◌,
  length, Bool-cases, Returns, Returns-bind,
}
use libcpp.Datetime.PairSet.{Pair, mem, insert, mem-insert}
use libcpp.Datetime.Timer.{new_timer}
use libcpp.Datetime.TimerQueue.{
  TimerQueue, entry, active_timer, add_timer_in_loop, add_timer, allocate, timer_id, reset_timerfd,
  delete, cancel_active, cancel_in_loop, is_earliest,
}
use libcpp.Datetime.TimerQueue.Invariant.{
  Inv, with_timer, without_timer, insert_timer-eq, with_timer-Inv, without_timer-Inv, delete-Inv,
  gone, dead, rewrite-Inv, is_active, reset_timerfd-Inv,
}

-- What an active entry says.
active_entry :
    (ptr seq : ℕ) (q : TimerQueue)
    → Inv q
    → mem (ptr, seq) q.active_timers ≡ true
    → (mem (entry q ptr) q.timers ≡ true) × (seq ≡ (q.heap ptr).sequence)
active_entry ptr seq q v h = ground (arith, v.agree ptr seq)

same_sizes : (q : TimerQueue) → Inv q → (length q.active_timers == length q.timers) ≡ true
same_sizes q v = (==_iff _ _).1 v.same_size

-- The second branch of `cancelInLoop` leaves both sets alone.
noted : Pair → TimerQueue → TimerQueue
noted id q =
    if q.calling_expired_timers
    then record q { canceling_timers = insert id q.canceling_timers }
    else q

noted-Inv : (id : Pair) (q : TimerQueue) → Inv q → Inv (noted id q)
unfolding noted
noted-Inv id q v = elim (Bool-cases q.calling_expired_timers) [
  | inl t ↦ rw t (record {
    sorted_timers = v.sorted_timers;
    sorted_active = v.sorted_active;
    keyed = v.keyed;
    agree = v.agree;
    same_size = v.same_size;
    alive = v.alive;
  })
  | inr t ↦ simp t v
]

noted-timers : (id : Pair) (q : TimerQueue) → (noted id q).timers ≡ q.timers
unfolding noted
noted-timers id q = ground arith

cancel-inactive :
    (id : Pair) (q : TimerQueue)
    → Inv q
    → mem id q.active_timers ≡ false
    → cancel_in_loop id q ≡ some (noted id q)
unfolding cancel_in_loop noted
cancel-inactive id q v h = rw (same_sizes q v, h)

-- In a valid queue `cancelInLoop` fails no assertion, whatever id it is given, and keeps the queue
-- valid.
pub cancel_in_loop-Inv :
    (ptr seq : ℕ) (q : TimerQueue) → Inv q → Returns Inv (cancel_in_loop (ptr, seq) q)
unfolding cancel_in_loop cancel_active
cancel_in_loop-Inv ptr seq q v = elim (Bool-cases (mem (ptr, seq) q.active_timers)) [
  | inl t ↦
      let (there, same) = active_entry ptr seq q v t in
      rw (same_sizes q v, t, there, same)
        (delete-Inv ptr (without_timer ptr q) (without_timer-Inv ptr q v there) (gone ptr q v))
  | inr t ↦ rw (cancel-inactive (ptr, seq) q v t) (noted-Inv (ptr, seq) q v)
]

-- In a valid queue `cancelInLoop` of a timer that waits, by its address and its own sequence
-- number, takes it out of both sets and frees it.
pub cancel_waiting :
    (ptr : ℕ) (q : TimerQueue)
    → Inv q
    → mem (entry q ptr) q.timers ≡ true
    → cancel_in_loop (active_timer q ptr) q ≡ some (delete ptr (without_timer ptr q))
unfolding cancel_in_loop cancel_active
cancel_waiting ptr q v h = rw (same_sizes q v, is_active ptr q v h, h)

allocate-Inv :
    (ptr when interval : ℕ) (q : TimerQueue)
    → Inv q
    → q.live ptr ≡ false
    → Inv (allocate ptr when interval q)
unfolding allocate
allocate-Inv ptr when interval q v free =
    let w = rewrite-Inv ptr (new_timer when interval q.created) q v (dead ptr q v free) in
    record {
      sorted_timers = w.sorted_timers;
      sorted_active = w.sorted_active;
      keyed = w.keyed;
      agree = w.agree;
      same_size = w.same_size;
      alive = λ t p m. ground (arith, w.alive t p);
    }

-- The timer waits in `q'` under its own sequence number, the count of those created before.
pub record Added (ptr when interval : ℕ) (q q' : TimerQueue) : Type 0 where
  pub inv : Inv q'
  pub timer : q'.heap ptr ≡ new_timer when interval q.created
  pub waiting : mem (when, ptr) q'.timers ≡ true

eq_self : (n : ℕ) → (n == n) ≡ true
eq_self n = (==_iff n n).1 refl

module _ (ptr when interval : ℕ) (q : TimerQueue) (v : Inv q) (free : q.live ptr ≡ false) where
  allocated : TimerQueue
  allocated = allocate ptr when interval q

  allocated-heap : allocated.heap ptr ≡ new_timer when interval q.created
  unfolding allocated allocate
  allocated-heap = rw (eq_self ptr)

  allocated-live : allocated.live ptr ≡ true
  unfolding allocated allocate
  allocated-live = rw (eq_self ptr)

  allocated-fresh : mem (entry allocated ptr) allocated.timers ≡ false
  unfolding allocated allocate
  allocated-fresh = dead ptr q v free _

  allocated-Inv : Inv allocated
  unfolding allocated
  allocated-Inv = allocate-Inv ptr when interval q v free

  with_timer-Added : Added ptr when interval q (with_timer ptr allocated)
  with_timer-Added = record {
    inv = with_timer-Inv ptr allocated allocated-Inv allocated-fresh allocated-live;
    timer = allocated-heap;
    waiting = ground (
      arith,
      mem-insert (when, ptr) (entry allocated ptr) allocated.timers,
      ap (λ t. t.expiration) allocated-heap,
    );
  }

  rearmed-Added :
      (t : ℕ) (q' : TimerQueue)
      → Added ptr when interval q q'
      → Added ptr when interval q (reset_timerfd t q')
  unfolding reset_timerfd
  rearmed-Added t q' a = record {
    inv = reset_timerfd-Inv t q' a.inv;
    timer = a.timer;
    waiting = a.waiting;
  }

  -- In a valid queue `addTimer`, with the timer at an address that was free, fails no assertion,
  -- keeps the queue valid and puts the timer into it, under its own sequence number.
  pub add_timer-Added :
      Returns
        (λ r. (r.0 ≡ timer_id ptr) × Added ptr when interval q r.1)
        (add_timer ptr when interval q)
  unfolding add_timer add_timer_in_loop allocated
  add_timer-Added =
      rw (insert_timer-eq ptr allocated allocated-Inv allocated-fresh)
        (elim (Bool-cases (is_earliest (allocated.heap ptr).expiration allocated.timers)) [
          | inl t ↦ rw t (
            refl,
            rearmed-Added (allocated.heap ptr).expiration (with_timer ptr allocated)
                with_timer-Added,
          )
          | inr t ↦ rw t (refl, with_timer-Added)
        ])

  -- In a valid queue the id that `addTimer` returns, for a timer at an address that was free, does
  -- not cancel the timer: unless it was the first one ever created, it still waits after
  -- `cancelInLoop`. (The id has sequence number 0, by default.)
  pub cancel-add_timer :
      q.created ≢ 0
      → Returns
          (λ q''. mem (when, ptr) q''.timers ≡ true)
          (add_timer ptr when interval q >>= λ r. cancel_in_loop r.0 r.1)
  cancel-add_timer later =
      Returns-bind (λ r. (r.0 ≡ timer_id ptr) × Added ptr when interval q r.1) _
        (add_timer ptr when interval q) _ add_timer-Added
        λ r a.
          rw
            (
              a.0,
              cancel-inactive (timer_id ptr) r.1 a.1.inv (stale r.1 a.1),
              noted-timers (timer_id ptr) r.1,
            )
            a.1.waiting
    where
      stale :
          (q' : TimerQueue) → Added ptr when interval q q' → mem (ptr, 0) q'.active_timers ≡ false
      stale q' a = ground (arith, a.inv.agree ptr 0, ap (λ t. t.sequence) a.timer, later)
