-- ===== src/Datetime/TimerWheel/Tests.antt =====
-- Wheels of four buckets, with a tick of ten microseconds; timer `t` expires at `t`.
use libcpp.Prelude.{none, ℕ, ◌+◌, ◌*◌, refl, [], ◌∷◌, arith}
use libcpp.Datetime.TimerWheel.{Wheel, TimerWheel, advance_clock}
use libcpp.Datetime.TimerWheel.Advance.{Advanced, advance_clock-Advanced}
use libcpp.Datetime.TimerWheel.Run.{Timers}

abbrev address : ℕ → ℕ → ℕ
address level id = level * 4 + id

abbrev at_itself : ℕ → ℕ
at_itself t = t

abbrev lowest : Wheel
lowest = record { tick = 10; current_time = 20 }

abbrev no_timers : TimerWheel
no_timers = record {
  buckets = λ b. record { expiration_time = 0; timers = [] };
  timer_hash_table = λ t. none;
  delay_queue = [];
  armed = none;
}

abbrev above : Wheel
above = record { tick = 40; current_time = 0 }

advance_clock-Advanced_example :
    Advanced 4 75 75 lowest (above ∷ []) (advance_clock 75 (lowest ∷ above ∷ []))
advance_clock-Advanced_example =
    advance_clock-Advanced 4 75 lowest (above ∷ []) (refl, omega arith, omega arith, tt)
      (omega arith) (omega arith)

abbrev timers : Timers
timers = record { lowest = lowest; above = []; wheel = no_timers; expiration = at_itself; ran = [] }
