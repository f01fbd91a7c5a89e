-- ===== src/Datetime/TimerWheel/Run.antt =====
-- `addTimerInLoop` and `handleRead` of src/datetime/TimerWheel.cc: which timers run. A callback is the fact
-- that it ran. `repeat` gives the interval of a repeated timer, `address` is as in Datetime/TimerWheel.
use libcpp.Prelude.{
  ℕ, suc, ◌+◌, ◌≤◌, ◌<◌, ◌≡◌, refl, sym, ap, ◌∙◌, inl, inr, Bool, true, false, Option, none, some,
  List, [], ◌∷◌, ◌++◌, arith, ltb, if◌then◌else◌, ◌>>=◌, Bool-cases, Returns, Returns-bind,
}
use libcpp.Reactor.EPoller.{update_at}
use libcpp.Datetime.TimerWheel.{Wheel, TimerWheel, insert, get_expired, advance_clock}
use libcpp.Datetime.Timer.{invalid}
use libcpp.Datetime.TimerWheel.Insert.{Ordered, Inserted, Held, insert-Inserted}

-- The wheels, the timers in them, the expiration of each timer, and the timers that ran so far.
pub record Timers : Type 0 where
  pub lowest : Wheel
  pub above : List Wheel
  pub wheel : TimerWheel
  pub expiration : ℕ → ℕ
  pub ran : List ℕ

-- The constructor, at the time `now`.
abbrev pub init : ℕ → ℕ → (ℕ → ℕ) → Timers
init tick now expiration = record {
  lowest = record { tick = tick; current_time = now };
  above = [];
  wheel = record {
    buckets = λ b. record { expiration_time = invalid; timers = [] };
    timer_hash_table = λ t. none;
    delay_queue = [];
    armed = none;
  };
  expiration = expiration;
  ran = [];
}

abbrev pub with_wheels : List Wheel → Timers → Option Timers
with_wheels [] s = none
with_wheels (w ∷ ws) s = some (record s { lowest = w; above = ws })

abbrev pub forget : ℕ → Timers → Timers
forget timer s = record s {
  wheel = record s.wheel { timer_hash_table = update_at s.wheel.timer_hash_table timer none };
}

module _ (wheel_size : ℕ) (address : ℕ → ℕ → ℕ) (repeat : ℕ → Option ℕ) where
  -- `timerWheel_->insert(timer)`, with enough fuel.
  abbrev pub insert_timer : ℕ → Timers → Option (Bool × Timers)
  insert_timer timer s = do
    (expired, ws, wheel) ←
        insert wheel_size address s.expiration (suc (s.expiration timer)) 0 timer s.lowest s.above
          s.wheel
    s' ← with_wheels ws (record s { wheel = wheel })
    some (expired, s')

  -- `restart`, and the second insertion, whose result is not looked at.
  abbrev pub insert_again : ℕ → ℕ → Option ℕ → Timers → Option Timers
  insert_again now timer none s = some s
  insert_again now timer (some interval) s =
      insert_timer timer (record s { expiration = update_at s.expiration timer (now + interval) })
      >>= λ (_, s'). some s'

  unfoldable pub add_timer_in_loop : ℕ → ℕ → Timers → Option Timers
  add_timer_in_loop now timer s = do
    (expired, s') ← insert_timer timer s
    if expired
        then insert_again now timer (repeat timer) (record s' { ran = s'.ran ++ (timer ∷ []) })
        else some s'

  abbrev pub settle : ℕ → ℕ → Option ℕ → Timers → Option Timers
  settle now timer none s = some (forget timer s)
  settle now timer (some interval) s = insert_again now timer (some interval) s

  abbrev pub settle_all : ℕ → List ℕ → Timers → Option Timers
  settle_all now [] s = some s
  settle_all now (t ∷ ts) s = settle now t (repeat t) s >>= settle_all now ts

  -- `resetTimerfd` for the first bucket, if its time is valid.
  abbrev pub rearm : List ℕ → Timers → Timers
  rearm [] s = s
  rearm (b ∷ l) s =
      let t = (s.wheel.buckets b).expiration_time in
      if ltb 0 t then record s { wheel = record s.wheel { armed = some t } } else s

  unfoldable pub handle_read : ℕ → Timers → Option Timers
  handle_read now s = do
    let (expired, wheel) = get_expired now s.wheel
    s' ←
        with_wheels (advance_clock now (s.lowest ∷ s.above))
          (record s { wheel = wheel; ran = s.ran ++ expired })
    s'' ← settle_all now expired s'
    some (rearm s''.wheel.delay_queue s'')

  -- A timer that is added and does not repeat runs at once, if it expires before the lowest tick is over, and
  -- then nothing else changes; or else it is held in one bucket, at its end, and nothing runs. The wheels
  -- are in step, with a positive tick and two buckets at least.
  pub add_timer_in_loop_lem :
      (now timer : ℕ) (s : Timers)
      → Ordered wheel_size s.lowest s.above
      → 2 ≤ wheel_size
      → 0 < s.lowest.tick
      → repeat timer ≡ none
      → Returns
          (λ s'.
            Ordered wheel_size s'.lowest s'.above
            × (s.expiration timer < s.lowest.current_time + s.lowest.tick
                → (s'.ran ≡ s.ran ++ (timer ∷ [])) × (s'.wheel ≡ s.wheel))
            × (s.lowest.current_time + s.lowest.tick ≤ s.expiration timer
                → (s'.ran ≡ s.ran) × Held timer s.wheel s'.wheel))
          (add_timer_in_loop now timer s)
  unfolding add_timer_in_loop
  add_timer_in_loop_lem now timer s o two pos once =
      Returns-bind
        (λ (e, s').
          Ordered wheel_size s'.lowest s'.above
          × (e ≡ ltb (s.expiration timer) (s.lowest.current_time + s.lowest.tick))
          × (s'.ran ≡ s.ran)
          × (e ≡ true → s'.wheel ≡ s.wheel)
          × (e ≡ false → Held timer s.wheel s'.wheel))
        _ (insert_timer timer s) _
        (Returns-bind (Inserted wheel_size (s.expiration timer) timer s.lowest s.wheel) _
          (insert wheel_size address s.expiration (suc (s.expiration timer)) 0 timer s.lowest
            s.above s.wheel)
          _
          (insert-Inserted wheel_size address s.expiration (suc (s.expiration timer)) 0 timer
            s.lowest s.above s.wheel o two pos (omega (arith, pos)) (omega arith))
          λ r i. rw i.wheels (i.ordered, i.expired, refl, i.untouched, i.held))
        λ (e, s') (o', ex, same, untouched, held). elim (Bool-cases e) [
          | inl t ↦
              let k : ltb (s.expiration timer) (s.lowest.current_time + s.lowest.tick) ≡ true =
                sym ex ∙ t in
              rw (t, once)
                (
                  o',
                  (λ h. (ap (λ l. l ++ (timer ∷ [])) same, untouched t)),
                  λ h. absurd (ground (arith, k, h)),
                )
          | inr f ↦
              let k : ltb (s.expiration timer) (s.lowest.current_time + s.lowest.tick) ≡ false =
                sym ex ∙ f in
              rw f (o', (λ h. absurd (ground (arith, k, h))), λ h. (same, held f))
        ]
