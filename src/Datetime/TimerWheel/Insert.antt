-- ===== src/Datetime/TimerWheel/Insert.antt =====
-- `insert` ends, and loses no timer.
use native.Mathlib.Nat.{mul-le-mul_left}
use libcpp.Prelude.{
  ℕ, zero, suc, ◌+◌, ◌*◌, ◌≤◌, ◌<◌, ◌≡◌, ◌≢◌, refl, ◌∙◌, ap, sym, inl, inr, Bool, true, false, some,
  List, [], ◌∷◌, ◌++◌, arith, ltb, ◌==◌, ==_iff, Bool-cases, Returns, Returns-bind,
}
use libcpp.Reactor.EPoller.{update_at}
use libcpp.Datetime.TimerWheel.{
  Wheel, Bucket, TimerWheel, arm_front, update_queue, update_delay_queue, put, upper, insert, sort,
  without,
}

-- The timer stands at the end of one bucket, where the table has it; no other bucket changed.
pub record Held (timer : ℕ) (s s' : TimerWheel) : Type 0 where
  pub bucket : ℕ
  pub known : s'.timer_hash_table timer ≡ some bucket
  pub last : (s'.buckets bucket).timers ≡ (s.buckets bucket).timers ++ (timer ∷ [])
  pub others : (b : ℕ) → b ≢ bucket → s'.buckets b ≡ s.buckets b

-- A change of the queue alone.
Same : TimerWheel → TimerWheel → Type 0
Same s s' = (s'.buckets ≡ s.buckets) × (s'.timer_hash_table ≡ s.timer_hash_table)

arm_front-Same : (before : ℕ) (l : List ℕ) (s : TimerWheel) → Same s (arm_front before l s)
unfolding Same
arm_front-Same before [] s = (refl, refl)
arm_front-Same before (b ∷ l) s = elim (Bool-cases (before == (s.buckets b).expiration_time)) [
  | inl e ↦ rw e (refl, refl)
  | inr e ↦ rw e (refl, refl)
]

update_queue-Same : (b : ℕ) (l : List ℕ) (s : TimerWheel) → Same s (update_queue b l s)
unfolding Same
update_queue-Same b [] s = (refl, refl)
update_queue-Same b (c ∷ l) s =
    arm_front-Same (s.buckets c).expiration_time (sort (without b (c ∷ l) ++ (b ∷ [])))
      (record s { delay_queue = sort (without b (c ∷ l) ++ (b ∷ [])) })

Held-Same : (timer : ℕ) (s m s' : TimerWheel) → Same m s' → Held timer s m → Held timer s s'
unfolding Same
Held-Same timer s m s' (e, f) h = record {
  bucket = h.bucket;
  known = ap (λ t. t timer) f ∙ h.known;
  last = ap (λ t. (t h.bucket).timers) e ∙ h.last;
  others = λ b n. ap (λ t. t b) e ∙ h.others b n;
}

put-Held : (timer b t : ℕ) (s : TimerWheel) → Held timer s (put timer b t s)
unfolding put update_delay_queue Same
put-Held timer b t s =
    let new : Bucket = record {
      expiration_time = t;
      timers = (s.buckets b).timers ++ (timer ∷ []);
    } in
    let m = record s {
      buckets = update_at s.buckets b new;
      timer_hash_table = update_at s.timer_hash_table timer (some b);
    } in
    let here : (b == b) ≡ true = (==_iff b b).1 refl in
    let held : Held timer s m = record {
      bucket = b;
      known = rw ((==_iff timer timer).1 refl) refl;
      last = rw here refl;
      others = λ c n. (let d : (b == c) ≡ false = ground (arith, n) in rw d refl);
    } in
    elim (Bool-cases ((s.buckets b).expiration_time == t)) [
      | inl e ↦ rw e held
      | inr e ↦ rw e (
          Held-Same timer s m (update_queue b s.delay_queue m) (update_queue-Same b s.delay_queue m)
            held)
    ]

module _ (wheel_size : ℕ) where
  -- Each wheel's tick is the interval of the wheel below it, and its clock is not ahead.
  abbrev pub Ordered : Wheel → List Wheel → Type 0
  Ordered w [] = Unit {0}
  Ordered w (u ∷ us) =
      (u.tick ≡ w.tick * wheel_size) × (u.current_time ≤ w.current_time) × Ordered u us

  upper-Ordered :
      (w : Wheel) (ws : List Wheel)
      → Ordered w ws
      → let (u, us) = upper wheel_size w ws in Ordered w (u ∷ us)
  upper-Ordered w [] o = (refl, omega arith, tt)
  upper-Ordered w (u ∷ us) o = o

  -- What `insert` makes of a timer, with the wheels that it leaves.
  pub record Inserted (expiration timer : ℕ) (w : Wheel) (s : TimerWheel)
      (r : Bool × List Wheel × TimerWheel) : Type 0 where
    pub above : List Wheel
    pub wheels : r.1 ≡ w ∷ above
    pub ordered : Ordered w above
    pub expired : r.0 ≡ ltb expiration (w.current_time + w.tick)
    pub untouched : r.0 ≡ true → r.2 ≡ s
    pub held : r.0 ≡ false → Held timer s r.2

  module _ (address : ℕ → ℕ → ℕ) (expiration : ℕ → ℕ) where
    pub insert-Inserted :
        (fuel level timer : ℕ) (w : Wheel) (ws : List Wheel) (s : TimerWheel)
        → Ordered w ws
        → 2 ≤ wheel_size
        → 0 < w.tick
        → expiration timer < w.tick + fuel
        → 0 < fuel
        → Returns
            (Inserted (expiration timer) timer w s)
            (insert wheel_size address expiration fuel level timer w ws s)
    unfolding insert
    insert-Inserted zero level timer w ws s o two pos enough some_fuel =
        absurd (omega (arith, some_fuel))
    insert-Inserted (suc fuel) level timer w ws s o two pos enough some_fuel =
        let (u, us) = upper wheel_size w ws in
        let (ticks, clock, rest) = upper-Ordered w ws o in
        let grows : w.tick * 2 ≤ w.tick * wheel_size = mul-le-mul_left w.tick two in
        elim (Bool-cases (ltb (expiration timer) (w.current_time + w.tick))) [
          | inl early ↦ rw early record {
            above = ws;
            wheels = refl;
            ordered = o;
            expired = sym early;
            untouched = λ t. refl;
            held = λ f. cc;
          }
          | inr late ↦
              elim (Bool-cases (ltb (expiration timer) (w.current_time + w.tick * wheel_size))) [
                | inl fits ↦
                    rw (late, fits)
                      record {
                        above = ws;
                        wheels = refl;
                        ordered = o;
                        expired = sym late;
                        untouched = λ t. cc;
                        held = λ f. put-Held timer _ _ s;
                      }
                | inr far ↦
                    rw (late, far)
                      (Returns-bind (Inserted (expiration timer) timer u s) _
                        (insert wheel_size address expiration fuel (suc level) timer u us s) _
                        (insert-Inserted fuel (suc level) timer u us s rest two
                          (omega (arith, ticks, grows, pos))
                          (omega (arith, ticks, grows, pos, enough))
                          (ground (arith, far, enough, grows, ticks, pos)))
                        λ r i. record {
                          above = u ∷ i.above;
                          wheels = ap (λ l. w ∷ l) i.wheels;
                          ordered = (ticks, clock, i.ordered);
                          expired = sym late;
                          untouched = λ t. cc;
                          held = λ f. i.held (i.expired ∙ ground (arith, far, ticks, clock));
                        })
              ]
        ]
