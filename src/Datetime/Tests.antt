-- ===== src/Datetime/Tests.antt =====
-- The theorems on timers at small inputs: a queue in which two timers are added, one of which repeats.
use libcpp.Prelude.{
  true, ◌+◌, ◌>>=◌, ◌≡◌, refl, false, some, [], ◌∷◌, arith, ◌==◌, ◌||◌, Returns, if◌then◌else◌,
}
use libcpp.Datetime.PairSet.{mem}
use libcpp.Datetime.Timer.{new_timer}
use libcpp.Datetime.TimerQueue.{TimerQueue, cancel_in_loop, add_timer, timer_id, get_expired, reset}
use libcpp.Datetime.TimerQueue.Invariant.{Inv}
use libcpp.Reactor.EventLoop.Timers.{run_at, run_after, run_every, cancel, cancel-run}
use libcpp.Datetime.TimerQueue.Cancel.{cancel_in_loop-Inv, Added, add_timer-Added}
use libcpp.Datetime.TimerQueue.Expired.{Split, get_expired-Split}
use libcpp.Datetime.TimerQueue.Reset.{IsIdle, Armed, reset-Armed}

-- Timer 16 waits for time 500, under sequence number 1; timer 32 is allocated and repeats.
abbrev one_waits : TimerQueue
one_waits = record {
  heap = λ p. if p == 16 then new_timer 500 0 1 else new_timer 100 50 2;
  live = λ p. p == 16 || p == 32;
  created = 3;
  timers = (500, 16) ∷ [];
  active_timers = (16, 1) ∷ [];
  canceling_timers = [];
  calling_expired_timers = false;
  armed = some 500;
}

one_waits-Inv : Inv one_waits
unfolding mem
one_waits-Inv = record {
  sorted_timers = (tt, tt);
  sorted_active = (tt, tt);
  keyed = λ t p m. ground arith;
  agree = λ p s. ground arith;
  same_size = refl;
  alive = λ t p m. ground arith;
}

cancel_in_loop-Inv_example : Returns Inv (cancel_in_loop (16, 1) one_waits)
cancel_in_loop-Inv_example = cancel_in_loop-Inv 16 1 one_waits one_waits-Inv

add_timer-Added_example :
    Returns (λ r. (r.0 ≡ timer_id 48) × Added 48 700 0 one_waits r.1) (add_timer 48 700 0 one_waits)
add_timer-Added_example = add_timer-Added 48 700 0 one_waits one_waits-Inv refl

get_expired-Split_example : Returns (Split 600 one_waits) (get_expired 600 one_waits)
get_expired-Split_example = get_expired-Split 600 one_waits one_waits-Inv (omega arith, tt)

timer_32_out : IsIdle one_waits 32
unfolding mem
timer_32_out = record { allocated = refl; out = λ t. ground arith }

reset-Armed_example :
    Returns (λ q'. Inv q' × Armed q' q'.timers) (reset 110 ((100, 32) ∷ []) one_waits)
reset-Armed_example =
    reset-Armed 110 ((100, 32) ∷ []) one_waits one_waits-Inv (timer_32_out, tt, tt)

cancel-run_example :
    Returns
      (λ q'. mem (600, 48) q'.timers ≡ true)
      (run_at 48 600 one_waits >>= λ (id, q'). cancel id q')
    × Returns
        (λ q'. mem (600 + 50, 48) q'.timers ≡ true)
        (run_after 48 600 50 one_waits >>= λ (id, q'). cancel id q')
    × Returns
        (λ q'. mem (600 + 50, 48) q'.timers ≡ true)
        (run_every 48 600 50 one_waits >>= λ (id, q'). cancel id q')
cancel-run_example = cancel-run 48 600 50 one_waits one_waits-Inv refl (λ e. cc e)
