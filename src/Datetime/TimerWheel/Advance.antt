-- ===== src/Datetime/TimerWheel/Advance.antt =====
-- `advanceClock` of src/datetime/TimerWheel.cc.
use native.Mathlib.Nat.{
  mul-le-mul_left, mod-lt, mod-add-div', div-div-eq-div-mul, mul-div_cancel, div-mul-le_self,
}
use libcpp.Prelude.{
  ℕ, ◌+◌, ◌*◌, ◌/◌, ◌≤◌, ◌<◌, ◌≡◌, ◌⊎◌, refl, sym, ◌∙◌, ap, inl, inr, List, [], ◌∷◌, arith, ltb,
  Bool-cases,
}
use libcpp.Datetime.TimerWheel.{Wheel, truncate, advance_clock}

truncate-eq : (t a : ℕ) → truncate t a ≡ t / a * a
unfolding truncate
truncate-eq t a = omega (arith, mod-add-div' t a)

-- A time that is cut to the ticks of one wheel has as many ticks of the wheel above it.
div-truncate : (t a n : ℕ) → 0 < a → truncate t a / (a * n) ≡ t / (a * n)
div-truncate t a n pos =
    ap (λ s. s / (a * n)) (truncate-eq t a)
    ∙ sym (div-div-eq-div-mul (t / a * a) a n)
    ∙ ap (λ q. q / n) (mul-div_cancel (t / a) pos)
    ∙ div-div-eq-div-mul t a n

-- A clock is as it was, or the last of its ticks that is not after the time.
abbrev pub Clocks : ℕ → List Wheel → List Wheel → Type 0
Clocks t [] [] = Unit
Clocks t (w ∷ ws) (w' ∷ ws') =
    (w'.tick ≡ w.tick)
    × ((w'.current_time ≡ w.current_time) ⊎ (w'.current_time ≡ t / w.tick * w.tick))
    × Clocks t ws ws'
Clocks t [] (w' ∷ ws') = ⊥
Clocks t (w ∷ ws) [] = ⊥

Clocks-refl : (t : ℕ) (ws : List Wheel) → Clocks t ws ws
Clocks-refl t [] = tt
Clocks-refl t (w ∷ ws) = (refl, inl refl, Clocks-refl t ws)

module _ (wheel_size : ℕ) where
  -- Each clock is in the present tick of the wheel above it, which is as long as the wheel.
  abbrev pub Stepped : Wheel → List Wheel → Type 0
  Stepped w [] = Unit
  Stepped w (u ∷ us) =
      (u.tick ≡ w.tick * wheel_size)
      × (u.current_time ≤ w.current_time)
      × (w.current_time < u.current_time + u.tick)
      × Stepped u us

  -- What `advanceClock` makes of the wheels, where it is given `s`, at the time `t`.
  pub record Advanced (s t : ℕ) (w : Wheel) (ws r : List Wheel) : Type 0 where
    pub head : Wheel
    pub above : List Wheel
    pub wheels : r ≡ head ∷ above
    pub clocks : Clocks t (w ∷ ws) (head ∷ above)
    pub recent : s < head.current_time + head.tick
    pub stepped : Stepped head above

  -- A wheel that is not a tick behind stays, with those above it.
  early-Advanced :
      (s t : ℕ) (w : Wheel) (ws : List Wheel)
      → Stepped w ws
      → s < w.current_time + w.tick
      → Advanced s t w ws (w ∷ ws)
  early-Advanced s t w ws o h = record {
    head = w;
    above = ws;
    wheels = refl;
    clocks = Clocks-refl t (w ∷ ws);
    recent = h;
    stepped = o;
  }

  recent_tick : (s a : ℕ) → 0 < a → s < truncate s a + a
  recent_tick s a pos = omega (arith, truncate-eq s a, mod-add-div' s a, mod-lt s pos)

  each_level :
      (s t : ℕ) (w : Wheel) (ws : List Wheel)
      → s / w.tick ≡ t / w.tick
      → Stepped w ws
      → 1 ≤ wheel_size
      → 0 < w.tick
      → Advanced s t w ws (advance_clock s (w ∷ ws))
  unfolding advance_clock
  each_level s t w [] same o one pos = elim (Bool-cases (ltb s (w.current_time + w.tick))) [
    | inl early ↦ rw early (early-Advanced s t w [] o (ground (arith, early)))
    | inr late ↦ rw late (record {
      head = record w { current_time = truncate s w.tick };
      above = [];
      wheels = refl;
      clocks = (refl, inr (truncate-eq s w.tick ∙ ap (λ q. q * w.tick) same), tt);
      recent = recent_tick s w.tick pos;
      stepped = tt;
    })
  ]
  each_level s t w (u ∷ us) same (ticks, below, within, rest) one pos =
      let grows : w.tick * 1 ≤ w.tick * wheel_size = mul-le-mul_left w.tick one in
      let same' : truncate s w.tick / u.tick ≡ t / u.tick =
        ap (λ a. truncate s w.tick / a) ticks
        ∙ div-truncate s w.tick wheel_size pos
        ∙ sym (div-div-eq-div-mul s w.tick wheel_size)
        ∙ ap (λ q. q / wheel_size) same
        ∙ div-div-eq-div-mul t w.tick wheel_size
        ∙ ap (λ a. t / a) (sym ticks) in
      let i = each_level (truncate s w.tick) t u us same' rest one (omega arith) in
      elim (Bool-cases (ltb s (w.current_time + w.tick))) [
        | inl early ↦
            rw early
              (early-Advanced s t w (u ∷ us) (ticks, below, within, rest) (ground (arith, early)))
        | inr late ↦ rw late (record {
          head = record w { current_time = truncate s w.tick };
          above = i.head ∷ i.above;
          wheels = ap (λ l. record w { current_time = truncate s w.tick } ∷ l) i.wheels;
          clocks = (refl, inr (truncate-eq s w.tick ∙ ap (λ q. q * w.tick) same), i.clocks);
          recent = recent_tick s w.tick pos;
          stepped = (
            i.clocks.0 ∙ ticks,
            elim i.clocks.1 [
              | inl e ↦ ground (arith, e, below, late, recent_tick s w.tick pos)
              | inr e ↦
                  omega (
                    arith,
                    e,
                    ap (λ q. q * u.tick) same',
                    div-mul-le_self (truncate s w.tick) u.tick,
                  )
            ],
            i.recent,
            i.stepped,
          );
        })
      ]

  -- `advanceClock`, whatever the time: each clock stays as it was, or becomes the last of its ticks that
  -- is not after the time; the time is before the end of the lowest wheel's tick afterwards, and each
  -- clock is in the present tick of the wheel above it. This holds if it held of the clocks before,
  -- ticks are positive, and a wheel has a bucket.
  pub advance_clock-Advanced :
      (t : ℕ) (w : Wheel) (ws : List Wheel)
      → Stepped w ws
      → 1 ≤ wheel_size
      → 0 < w.tick
      → Advanced t t w ws (advance_clock t (w ∷ ws))
  advance_clock-Advanced t w ws o one pos = each_level t t w ws refl o one pos
