-- ===== src/Datetime/Timer.antt =====
-- src/datetime/Timer.h, src/datetime/Timer.cc and src/datetime/TimerId.h. A time is a number of
-- microseconds since the epoch, and an interval in seconds its number of microseconds.
use Prim.Native.Nat.{max}
use libcpp.Prelude.{ℕ, ◌+◌, ◌-◌, ◌*◌, ◌/◌, ◌%◌, ◌<◌, ◌≡◌, Bool, ltb, if◌then◌else◌, arith}

pub record Timer : Type 0 where
  pub expiration : ℕ
  pub interval : ℕ
  pub repeat : Bool
  pub sequence : ℕ

-- The constructor; `created` is `s_numCreated_` before it.
abbrev pub new_timer : ℕ → ℕ → ℕ → Timer
new_timer when interval created = record {
  expiration = when;
  interval = interval;
  repeat = ltb 0 interval;
  sequence = created;
}

-- `TimeStamp::invalid()`
abbrev pub invalid : ℕ
invalid = 0

unfoldable pub restart : ℕ → Timer → Timer
restart now t =
    if t.repeat
    then record t { expiration = now + t.interval }
    else record t { expiration = invalid }

abbrev pub micros_per_second : ℕ
micros_per_second = 1000 * 1000

-- The seconds and nanoseconds to wait. A difference below 100, a negative one too, counts as 100.
pub how_much_time_from_now : ℕ → ℕ → ℕ × ℕ
how_much_time_from_now now when =
    let micros = if ltb (when - now) 100 then 100 else when - now in
    (micros / micros_per_second, micros % micros_per_second * 1000)

-- The wait is a proper `timespec` of at least 100 microseconds, so never zero, which would disarm
-- the timerfd; and it is the time that is left to `when`, if that is no less.
pub how_much_time_from_now_lem :
    (now when : ℕ)
    → let (sec, nsec) = how_much_time_from_now now when in
      (nsec < 1000 * 1000 * 1000)
      × (sec * (1000 * 1000 * 1000) + nsec ≡ max 100 (when - now) * 1000)
unfolding how_much_time_from_now
how_much_time_from_now_lem now when = ground arith
