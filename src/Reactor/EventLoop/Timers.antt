-- ===== src/Reactor/EventLoop/Timers.antt =====
-- The timers of an event loop: `runAt`, `runAfter`, `runEvery` and `cancel` of src/reactor/EventLoop.cc, in the
-- loop's thread, on the queue of Datetime/TimerQueue. A delay is its number of microseconds; `ptr` is the
-- address of the new timer, and `now` what TimeStamp::now gives.
use libcpp.Prelude.{ℕ, ◌+◌, ◌≡◌, ◌≢◌, true, false, Option, ◌>>=◌, Returns}
use libcpp.Datetime.PairSet.{Pair, mem}
use libcpp.Datetime.TimerQueue.{TimerQueue, add_timer, cancel_in_loop}
use libcpp.Datetime.TimerQueue.Invariant.{Inv}
use libcpp.Datetime.TimerQueue.Cancel.{cancel-add_timer}

abbrev pub run_at : ℕ → ℕ → TimerQueue → Option (Pair × TimerQueue)
run_at ptr time q = add_timer ptr time 0 q

abbrev pub run_after : ℕ → ℕ → ℕ → TimerQueue → Option (Pair × TimerQueue)
run_after ptr now delay q = run_at ptr (now + delay) q

abbrev pub run_every : ℕ → ℕ → ℕ → TimerQueue → Option (Pair × TimerQueue)
run_every ptr now interval q = add_timer ptr (now + interval) interval q

abbrev pub cancel : Pair → TimerQueue → Option TimerQueue
cancel id q = cancel_in_loop id q

-- In a valid queue, for a timer at an address that was free, which is not the first that was ever made: `cancel`
-- of the id that the call gave leaves the timer waiting for its time, after each of the three calls that
-- make timers.
pub cancel-run :
    (ptr now wait : ℕ) (q : TimerQueue)
    → Inv q
    → q.live ptr ≡ false
    → q.created ≢ 0
    → Returns
        (λ q'. mem (now, ptr) q'.timers ≡ true)
        (run_at ptr now q >>= λ (id, q'). cancel id q')
      × Returns
          (λ q'. mem (now + wait, ptr) q'.timers ≡ true)
          (run_after ptr now wait q >>= λ (id, q'). cancel id q')
      × Returns
          (λ q'. mem (now + wait, ptr) q'.timers ≡ true)
          (run_every ptr now wait q >>= λ (id, q'). cancel id q')
cancel-run ptr now wait q v free n = (
  cancel-add_timer ptr now 0 q v free n,
  cancel-add_timer ptr (now + wait) 0 q v free n,
  cancel-add_timer ptr (now + wait) wait q v free n,
)
