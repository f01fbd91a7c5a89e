-- ===== src/Datetime/TimerWheel.antt =====
-- src/datetime/TimerWheel.h and src/datetime/TimerWheel.cc. Times and ticks are numbers of microseconds. The
-- wheels are a list, the lowest first. Timers and buckets are their addresses: `address level id` is where
-- bucket `id` of a wheel is, and `expiration` and `repeat` give a timer's fields.
pub mod Insert
pub mod Advance
pub mod BucketTime
pub mod Run
mod Tests
use libcpp.Prelude.{
  ℕ, zero, suc, ◌+◌, ◌-◌, ◌*◌, ◌/◌, ◌%◌, Bool, true, false, not, Option, none, some, List, [], ◌∷◌,
  ◌++◌, ltb, leb, ◌==◌, if◌then◌else◌, ◌>>=◌,
}
use libcpp.Reactor.EPoller.{update_at}

-- `TimerWheelImpl`, but for its buckets.
pub record Wheel : Type 0 where
  pub tick : ℕ
  pub current_time : ℕ

pub record Bucket : Type 0 where
  pub expiration_time : ℕ
  pub timers : List ℕ

-- `buckets` gives the bucket at each address, `timer_hash_table` the bucket that a timer is in;
-- `armed` is what the timerfd was last set to.
pub record TimerWheel : Type 0 where
  pub buckets : ℕ → Bucket
  pub timer_hash_table : ℕ → Option ℕ
  pub delay_queue : List ℕ
  pub armed : Option ℕ

abbrev pub set_bucket : ℕ → Bucket → TimerWheel → TimerWheel
set_bucket b bucket w = record w { buckets = update_at w.buckets b bucket }

abbrev pub without : ℕ → List ℕ → List ℕ
without b [] = []
without b (c ∷ l) = let rest = without b l in if b == c then rest else c ∷ rest

-- `delayQueue_.sort()` orders the buckets by their addresses.
abbrev pub insert_sorted : ℕ → List ℕ → List ℕ
insert_sorted b [] = b ∷ []
insert_sorted b (c ∷ l) = let rest = insert_sorted b l in if ltb b c then b ∷ c ∷ l else c ∷ rest

abbrev pub sort : List ℕ → List ℕ
sort [] = []
sort (b ∷ l) = insert_sorted b (sort l)

-- The timerfd is set if the time of the first bucket is not `before`.
abbrev pub arm_front : ℕ → List ℕ → TimerWheel → TimerWheel
arm_front before [] w = w
arm_front before (b ∷ l) w =
    let t = (w.buckets b).expiration_time in if before == t then w else record w { armed = some t }

abbrev pub update_queue : ℕ → List ℕ → TimerWheel → TimerWheel
update_queue b [] w = record w { delay_queue = b ∷ []; armed = some (w.buckets b).expiration_time }
update_queue b (c ∷ l) w =
    let queue = sort (without b (c ∷ l) ++ (b ∷ [])) in
    arm_front (w.buckets c).expiration_time queue (record w { delay_queue = queue })

unfoldable pub update_delay_queue : ℕ → TimerWheel → TimerWheel
update_delay_queue b w = update_queue b w.delay_queue w

-- The timer goes to the end of bucket `b`, whose time is set to `t`.
unfoldable pub put : ℕ → ℕ → ℕ → TimerWheel → TimerWheel
put timer b t w =
    let old = w.buckets b in
    let w' = set_bucket b (record { expiration_time = t; timers = old.timers ++ (timer ∷ []) }) w in
    let w'' = record w' { timer_hash_table = update_at w'.timer_hash_table timer (some b) } in
    if old.expiration_time == t then w'' else update_delay_queue b w''

-- `getExpired`: the timers of the buckets whose time is over, from the front on.
unfoldable pub expired_from : ℕ → List ℕ → TimerWheel → List ℕ × TimerWheel
expired_from now [] w = ([], record w { delay_queue = [] })
expired_from now (b ∷ l) w =
    let bucket = w.buckets b in
    let (rest, w') = expired_from now l (set_bucket b (record bucket { timers = [] }) w) in
    if ltb bucket.expiration_time now
    then (bucket.timers ++ rest, w')
    else ([], record w { delay_queue = b ∷ l })

unfoldable pub get_expired : ℕ → TimerWheel → List ℕ × TimerWheel
get_expired now w = expired_from now w.delay_queue w

-- `cancelInLoop`. A timer that is in no bucket makes a null pointer, which is followed.
unfoldable pub cancel_in_loop : ℕ → TimerWheel → Option TimerWheel
cancel_in_loop timer w = do
  b ← w.timer_hash_table timer
  let bucket = w.buckets b
  let w' = set_bucket b (record bucket { timers = without timer bucket.timers }) w
  some (record w' { timer_hash_table = update_at w'.timer_hash_table timer none })

unfoldable pub truncate : ℕ → ℕ → ℕ
truncate current tick = current - current % tick

-- `advanceClock` of each wheel, from the lowest on.
unfoldable pub advance_clock : ℕ → List Wheel → List Wheel
advance_clock expiration [] = []
advance_clock expiration (w ∷ ws) =
    let t = truncate expiration w.tick in
    let rest = advance_clock t ws in
    if ltb expiration (w.current_time + w.tick)
    then w ∷ ws
    else record w { current_time = t } ∷ rest

module _ (wheel_size : ℕ) where
  abbrev pub interval : Wheel → ℕ
  interval w = w.tick * wheel_size

  -- The upper wheels, with a new one if there is none.
  abbrev pub upper : Wheel → List Wheel → Wheel × List Wheel
  upper w [] = (record { tick = w.tick * wheel_size; current_time = w.current_time }, [])
  upper w (u ∷ us) = (u, us)

module _ (wheel_size : ℕ) (address : ℕ → ℕ → ℕ) (expiration : ℕ → ℕ) where
  -- The bucket that a timer belongs to, and the time that is given to it.
  abbrev pub bucket_id : Wheel → ℕ → ℕ
  bucket_id w timer = expiration timer / w.tick % wheel_size

  abbrev pub bucket_time : Wheel → ℕ → ℕ
  bucket_time w timer = w.current_time + bucket_id w timer * w.tick

  -- `insert` at the wheel of this level, with the wheels above it. Each round of fuel is a level.
  unfoldable pub insert :
      ℕ → ℕ → ℕ → Wheel → List Wheel → TimerWheel → Option (Bool × List Wheel × TimerWheel)
  insert zero level timer w ws s = none
  insert (suc fuel) level timer w ws s =
      let (u, us) = upper wheel_size w ws in
      let above = insert fuel (suc level) timer u us s in
      if ltb (expiration timer) (w.current_time + w.tick)
      then some (true, w ∷ ws, s)
      else if ltb (expiration timer) (w.current_time + interval wheel_size w)
      then some
          (false, w ∷ ws, put timer (address level (bucket_id w timer)) (bucket_time w timer) s)
      else (above >>= λ (_, ws', s'). some (false, w ∷ ws', s'))
