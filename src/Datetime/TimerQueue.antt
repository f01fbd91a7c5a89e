-- ===== src/Datetime/TimerQueue.antt =====
-- src/datetime/TimerQueue.h and src/datetime/TimerQueue.cc, as called in the loop's thread. A timer
-- has an address; `none` is an assertion that fails.
pub mod Invariant
pub mod Cancel
pub mod Expired
pub mod Reset
use libcpp.Prelude.{
  ℕ, ◌+◌, ◌-◌, ◌^◌, Bool, true, false, not, ◌&&◌, Option, some, List, [], ◌∷◌, ltb, ◌==◌,
  if◌then◌else◌, ◌>>=◌, ◌>>◌, assert, length,
}
use libcpp.Datetime.PairSet.{Pair, mem, insert, erase, before, from}
use libcpp.Datetime.Timer.{Timer, new_timer, restart}

-- `heap` has the timer at each address, and `live` tells which are allocated. `armed` is the time
-- for which the timerfd was last set.
pub record TimerQueue : Type 0 where
  pub heap : ℕ → Timer
  pub live : ℕ → Bool
  pub created : ℕ
  pub timers : List Pair
  pub active_timers : List Pair
  pub canceling_timers : List Pair
  pub calling_expired_timers : Bool
  pub armed : Option ℕ

abbrev pub update_at {ℓ} : {A : Type ℓ} → (ℕ → A) → ℕ → A → ℕ → A
update_at f i a j = if i == j then a else f j

-- The entry of a timer in `timers_`, and that in `activeTimers_`.
abbrev pub entry : TimerQueue → ℕ → Pair
entry q ptr = ((q.heap ptr).expiration, ptr)

abbrev pub active_timer : TimerQueue → ℕ → Pair
active_timer q ptr = (ptr, (q.heap ptr).sequence)

unfoldable pub reset_timerfd : ℕ → TimerQueue → TimerQueue
reset_timerfd when q = record q { armed = some when }

unfoldable pub delete : ℕ → TimerQueue → TimerQueue
delete ptr q = record q { live = update_at q.live ptr false }

abbrev pub is_earliest : ℕ → List Pair → Bool
is_earliest when [] = true
is_earliest when ((t, p) ∷ l) = ltb when t

-- With `earliestChanged`.
pub insert_timer : ℕ → TimerQueue → Option (Bool × TimerQueue)
insert_timer ptr q = do
  assert (not (mem (entry q ptr) q.timers))
  assert (not (mem (active_timer q ptr) q.active_timers))
  some (
    is_earliest (q.heap ptr).expiration q.timers,
    record q {
      timers = insert (entry q ptr) q.timers;
      active_timers = insert (active_timer q ptr) q.active_timers;
    },
  )

pub add_timer_in_loop : ℕ → TimerQueue → Option TimerQueue
add_timer_in_loop ptr q = do
  (earliest_changed, q') ← insert_timer ptr q
  some (if earliest_changed then reset_timerfd (q.heap ptr).expiration q' else q')

-- `new Timer` at address `ptr`.
unfoldable pub allocate : ℕ → ℕ → ℕ → TimerQueue → TimerQueue
allocate ptr when interval q = record q {
  heap = update_at q.heap ptr (new_timer when interval q.created);
  live = update_at q.live ptr true;
  created = q.created + 1;
}

-- What `TimerId(timer)` holds: its second argument is left to default.
abbrev pub timer_id : ℕ → Pair
timer_id ptr = (ptr, 0)

pub add_timer : ℕ → ℕ → ℕ → TimerQueue → Option (Pair × TimerQueue)
add_timer ptr when interval q = do
  q' ← add_timer_in_loop ptr (allocate ptr when interval q)
  some (timer_id ptr, q')

-- The first branch of `cancelInLoop`: the timer waits in the queue.
cancel_active : Pair → TimerQueue → Option TimerQueue
cancel_active (ptr, seq) q = do
  assert (mem (entry q ptr) q.timers)
  some (
      delete ptr (record q {
        timers = erase (entry q ptr) q.timers;
        active_timers = erase (ptr, seq) q.active_timers;
      }))

pub cancel_in_loop : Pair → TimerQueue → Option TimerQueue
cancel_in_loop id q = do
  assert (length q.active_timers == length q.timers)
  if mem id q.active_timers
      then cancel_active id q
      else some (
          if q.calling_expired_timers
          then record q { canceling_timers = insert id q.canceling_timers }
          else q)

abbrev pub uintptr_max : ℕ
uintptr_max = 2 ^ 64 - 1

abbrev pub all_later : ℕ → List Pair → Bool
all_later now [] = true
all_later now ((t, p) ∷ l) = ltb now t

erase_active : List Pair → TimerQueue → TimerQueue
erase_active [] q = q
erase_active ((t, ptr) ∷ expired) q =
    erase_active expired (record q { active_timers = erase (active_timer q ptr) q.active_timers })

pub get_expired : ℕ → TimerQueue → Option (List Pair × TimerQueue)
get_expired now q =
    let sentry : Pair = (now, uintptr_max) in
    do
      assert (all_later now (from sentry q.timers))
      let expired = before sentry q.timers
      some (expired, erase_active expired (record q { timers = from sentry q.timers }))

-- One round of the loop in `reset`.
pub reset_one : ℕ → ℕ → TimerQueue → Option TimerQueue
reset_one now ptr q =
    if (q.heap ptr).repeat && not (mem (active_timer q ptr) q.canceling_timers)
    then (insert_timer ptr (record q { heap = update_at q.heap ptr (restart now (q.heap ptr)) })
        >>= λ r. some r.1)
    else some (delete ptr q)

pub reset_all : ℕ → List Pair → TimerQueue → Option TimerQueue
reset_all now [] q = some q
reset_all now ((t, ptr) ∷ expired) q = reset_one now ptr q >>= λ q'. reset_all now expired q'

-- The end of `reset`: the timerfd is set for the first timer, if its time is valid.
pub rearm : TimerQueue → List Pair → TimerQueue
rearm q [] = q
rearm q ((t, ptr) ∷ l) =
    let next_expired = (q.heap ptr).expiration in
    if ltb 0 next_expired then reset_timerfd next_expired q else q

pub reset : ℕ → List Pair → TimerQueue → Option TimerQueue
reset now expired q = reset_all now expired q >>= λ q'. some (rearm q' q'.timers)

-- What a timer's callback may ask of the queue.
pub data Call : Type 0 where
  adds : (ptr when interval : ℕ) → Call
  cancels : Pair → Call

run_call : Call → TimerQueue → Option TimerQueue
run_call (adds ptr when interval) q = add_timer ptr when interval q >>= λ r. some r.1
run_call (cancels id) q = cancel_in_loop id q

run_calls : List Call → TimerQueue → Option TimerQueue
run_calls [] q = some q
run_calls (c ∷ cs) q = run_call c q >>= λ q'. run_calls cs q'

-- `callback` has the calls that the callback of each timer makes.
run_expired : (ℕ → List Call) → List Pair → TimerQueue → Option TimerQueue
run_expired callback [] q = some q
run_expired callback ((t, ptr) ∷ expired) q =
    run_calls (callback ptr) q >>= λ q'. run_expired callback expired q'

pub handle_read : (ℕ → List Call) → ℕ → TimerQueue → Option TimerQueue
handle_read callback now q = do
  (expired, q₁) ← get_expired now q
  q₂ ←
      run_expired callback expired
        (record q₁ { calling_expired_timers = true; canceling_timers = [] })
  reset now expired (record q₂ { calling_expired_timers = false })
