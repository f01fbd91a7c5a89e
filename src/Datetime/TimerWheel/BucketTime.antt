-- ===== src/Datetime/TimerWheel/BucketTime.antt =====
-- The time that `insert` gives to a bucket.
use native.Mathlib.Nat.{mul-add-div, mul-add-mod_self_left, mod-eq_of_lt, div-eq_of_lt}
use libcpp.Prelude.{ℕ, ◌+◌, ◌-◌, ◌*◌, ◌/◌, ◌%◌, ◌≤◌, ◌<◌, ◌≡◌, ◌∙◌, ap, arith}
use libcpp.Datetime.TimerWheel.{Wheel, bucket_id, bucket_time}

module _ (wheel_size : ℕ) (address : ℕ → ℕ → ℕ) (expiration : ℕ → ℕ) (w : Wheel) (timer : ℕ) where
  -- A timer whose tick is number `wheel_size * r + i`.
  bucket_id_lem :
      (r i y : ℕ)
      → i < wheel_size
      → y < w.tick
      → expiration timer ≡ w.tick * (wheel_size * r + i) + y
      → (bucket_id wheel_size address expiration w timer ≡ i) × (expiration timer % w.tick ≡ y)
  bucket_id_lem r i y low small e = (
    ap (λ t. t / w.tick % wheel_size) e
        ∙ ap (λ t. t % wheel_size)
            (mul-add-div (omega (arith, small)) (wheel_size * r + i) y
              ∙ ap (λ t. (wheel_size * r + i) + t) (div-eq_of_lt small)
              ∙ omega arith)
        ∙ mul-add-mod_self_left wheel_size r i
        ∙ mod-eq_of_lt low,
    ap (λ t. t % w.tick) e
        ∙ mul-add-mod_self_left w.tick (wheel_size * r + i) y
        ∙ mod-eq_of_lt small,
  )

  -- The clock of a wheel stands `b` ticks after a multiple of the wheel's interval, and `d` ticks before the
  -- next one. A timer that expires `x` ticks, and less than one more, after the clock goes to a bucket whose
  -- time is `b` ticks after the timer's own tick, if it is in the same turn of the wheel, and otherwise
  -- `d` ticks before it. So the time is right, up to the tick, just where the clock is such a multiple.
  pub bucket_time_lem :
      (q b d x y : ℕ)
      → wheel_size ≡ b + d
      → w.current_time ≡ w.tick * (wheel_size * q + b)
      → expiration timer ≡ w.current_time + (w.tick * x + y)
      → x < wheel_size
      → y < w.tick
      → let time = bucket_time wheel_size address expiration w timer in
        let own = expiration timer - expiration timer % w.tick in
        (x < d → time ≡ own + w.tick * b) × (d ≤ x → time + w.tick * d ≡ own)
  bucket_time_lem q b d x y size clock e low small = (
    (λ h.
        let (id, rem) =
          bucket_id_lem q (b + x) y (omega (arith, size, h)) small (omega (arith, e, clock)) in
        rw (id, rem) (omega (arith, e, clock))),
    (λ h.
        let parts : w.tick * x ≡ w.tick * (d + (x - d)) = ap (λ t. w.tick * t) (omega (arith, h)) in
        let turn : w.tick * wheel_size ≡ w.tick * (b + d) = ap (λ t. w.tick * t) size in
        let (id, rem) =
          bucket_id_lem (q + 1) (x - d) y (omega (arith, low)) small
            (omega (arith, e, clock, parts, turn)) in
        rw (id, rem) (omega (arith, e, parts))),
  )
