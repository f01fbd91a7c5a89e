-- ===== src/Net/Connector/Accounts.antt =====
-- No descriptor is lost, the assertions that can fail, and the bounds of the retry delay.
use libcpp.Prelude.{
  ℕ, ◌+◌, ◌-◌, ◌≤◌, ◌<◌, ◌≡◌, refl, subst, Bool, true, false, inl, inr, Option, none, some, ◌≢◌,
  ◌⊎◌, arith, ◌==◌, Returns, Bool-cases,
}
use libcpp.Net.Connector.{
  Connector, States, disconnected, connecting, connected, max_retry_delay_ms, init_retry_delay_ms,
  is_none, is_disconnected, close, retry, connecting_on, goes_ahead, may_retry, connect,
  start_in_loop, start, restart, stop, remove_and_reset_channel, reset_channel, handle_write,
  handle_error,
}

-- What the state says of the channel, and the descriptors that are still held.
abbrev pub Agrees : States → Connector → Type 0
Agrees disconnected c =
    (c.polled ≡ false) × (is_none c.channel ≡ (c.resets == 0)) × (c.opened ≡ c.closed + c.handed)
Agrees connecting c =
    (c.polled ≡ true)
    × (is_none c.channel ≡ false)
    × (c.resets ≡ 0)
    × (c.opened ≡ c.closed + c.handed + 1)
Agrees connected c =
    (c.polled ≡ false) × (is_none c.channel ≡ (c.resets == 0)) × (c.opened ≡ c.closed + c.handed)

pub record Inv (c : Connector) : Type 0 where
  pub agrees : Agrees c.state c
  pub single : c.resets ≤ 1
  pub least : init_retry_delay_ms ≤ c.retry_delay_ms
  pub most : c.retry_delay_ms ≤ max_retry_delay_ms

-- What may happen to a connector: a call of its owner, an event of its channel, a functor, a timer.
pub data Event : Type 0 where
  starts restarts : (sockfd errno : ℕ) → Event
  stops : (cancelled : Bool) → Event
  is_writable : (failed : Bool) → Event
  has_error : Event
  is_reset : Event
  timer_fires : (sockfd errno : ℕ) → Event

unfoldable pub step : Event → Connector → Option Connector
step (starts sockfd errno) c = start sockfd errno c
step (restarts sockfd errno) c = restart sockfd errno c
step (stops cancelled) c = some (stop cancelled c)
step (is_writable failed) c = handle_write failed c
step has_error c = handle_error c
step is_reset c = some (reset_channel c)
step (timer_fires sockfd errno) c =
    start_in_loop sockfd errno (record c { retries = c.retries - 1 })

-- When it may: the owner restarts a connector that is not connecting; the channel's events come while
-- it is in the poller; functors and timers run if there are any.
abbrev pub May : Event → Connector → Type 0
May (starts sockfd errno) c = Unit {0}
May (restarts sockfd errno) c = c.state ≢ connecting
May (stops cancelled) c = Unit {0}
May (is_writable failed) c = c.polled ≡ true
May has_error c = c.polled ≡ true
May is_reset c = 0 < c.resets
May (timer_fires sockfd errno) c = 0 < c.retries

-- A new attempt while `resetChannel` is still in the loop's queue.
abbrev pub TooSoon : ℕ → Connector → Type 0
TooSoon errno c = (goes_ahead errno ≡ true) × (c.resets ≡ 1)

-- When an assertion fails: of `startInLoop`, or of `connecting`.
abbrev pub Asserts : Event → Connector → Type 0
Asserts (starts sockfd errno) c = (c.state ≢ disconnected) ⊎ TooSoon errno c
Asserts (restarts sockfd errno) c = TooSoon errno c
Asserts (stops cancelled) c = ⊥
Asserts (is_writable failed) c = ⊥
Asserts has_error c = ⊥
Asserts is_reset c = ⊥
Asserts (timer_fires sockfd errno) c = (c.state ≢ disconnected) ⊎ TooSoon errno c

pub in_state : {s : States} {c : Connector} → Inv c → c.state ≡ s → Agrees s c
in_state {s} {c} v e = subst (λ s'. Agrees s' c) e v.agrees

retry-Inv :
    (c : Connector)
    → c.polled ≡ false
    → is_none c.channel ≡ (c.resets == 0)
    → c.resets ≤ 1
    → c.opened ≡ c.closed + c.handed + 1
    → init_retry_delay_ms ≤ c.retry_delay_ms
    → c.retry_delay_ms ≤ max_retry_delay_ms
    → Inv (retry c)
unfolding retry close
retry-Inv c p n one o lo hi = elim (Bool-cases c.connect_flag) [
  | inl t ↦ rw t (record {
    agrees = (p, n, omega arith);
    single = one;
    least = omega arith;
    most = omega arith;
  })
  | inr t ↦ rw t (record { agrees = (p, n, omega arith); single = one; least = lo; most = hi })
]

-- An attempt fails the assertion of `connecting`, or leaves good order.
Tried : ℕ → Connector → Option Connector → Type 0
Tried errno c r = ((r ≡ none) × TooSoon errno c) ⊎ Returns Inv r

connect-Tried :
    (sockfd errno : ℕ) (c : Connector)
    → Inv c
    → c.state ≡ disconnected
    → Tried errno c (connect sockfd errno c)
unfolding connect connecting_on close Tried
connect-Tried sockfd errno c v d =
    let (p, n, o) = in_state v d in
    elim (Bool-cases (goes_ahead errno)) [
      | inl t ↦ elim (Bool-cases (c.resets == 0)) [
        | inl z ↦ inr (
            rw (t, n, z)
              (record {
                agrees = (refl, refl, ground (arith, z), omega arith);
                single = v.single;
                least = v.least;
                most = v.most;
              }))
        | inr z ↦ inl (rw (t, n, z) refl, (t, ground (arith, v.single, z)))
      ]
      | inr f ↦ elim (Bool-cases (may_retry errno)) [
        | inl t ↦ inr (
            rw (f, t)
              (retry-Inv (record c { opened = c.opened + 1 }) p n v.single (omega arith) v.least
                v.most))
        | inr t ↦ inr (
            rw (f, t)
              (record {
                agrees = rw d (p, n, omega arith);
                single = v.single;
                least = v.least;
                most = v.most;
              }))
      ]
    ]

start_in_loop-Tried :
    (sockfd errno : ℕ) (c : Connector)
    → Inv c
    → c.state ≡ disconnected
    → Tried errno c (start_in_loop sockfd errno c)
unfolding start_in_loop Tried
start_in_loop-Tried sockfd errno c v d = elim (Bool-cases c.connect_flag) [
  | inl t ↦ simp (d, t) (connect-Tried sockfd errno c v d)
  | inr t ↦ simp (d, t) (inr v)
]

-- Outside of `kDisconnected` the assertion of `startInLoop` fails.
start_in_loop-none :
    (sockfd errno : ℕ) (c : Connector)
    → is_disconnected c.state ≡ false
    → start_in_loop sockfd errno c ≡ none
unfolding start_in_loop
start_in_loop-none sockfd errno c h = rw h

is_disconnected_iff :
    (s : States) → (s ≡ disconnected) ⊎ ((is_disconnected s ≡ false) × (s ≢ disconnected))
is_disconnected_iff disconnected = inl refl
is_disconnected_iff connecting = inr (refl, λ e. cc)
is_disconnected_iff connected = inr (refl, λ e. cc)

write-Inv :
    (failed : Bool) (c : Connector)
    → Inv c
    → c.state ≡ connecting
    → Returns Inv (handle_write failed c)
unfolding handle_write remove_and_reset_channel close retry
write-Inv failed c v e =
    let (p, n, z, o) = in_state v e in
    elim (Bool-cases failed) [
      | inl t ↦
          rw (e, n, t)
            (retry-Inv (record c { polled = false; resets = c.resets + 1 }) refl (rw (n, z) refl)
              (omega arith) o v.least v.most)
      | inr t ↦ elim (Bool-cases c.connect_flag) [
        | inl f ↦
            rw (e, n, t, f)
              (record {
                agrees = (refl, rw (n, z) refl, omega arith);
                single = omega arith;
                least = v.least;
                most = v.most;
              })
        | inr f ↦
            rw (e, n, t, f)
              (record {
                agrees = (refl, rw (n, z) refl, omega arith);
                single = omega arith;
                least = v.least;
                most = v.most;
              })
      ]
    ]

error-Inv : (c : Connector) → Inv c → c.state ≡ connecting → Returns Inv (handle_error c)
unfolding handle_error remove_and_reset_channel retry
error-Inv c v e =
    let (p, n, z, o) = in_state v e in
    rw (e, n)
      (retry-Inv (record c { polled = false; resets = c.resets + 1 }) refl (rw (n, z) refl)
        (omega arith) o v.least v.most)

-- Only a connecting channel is in the poller.
polled_connecting : (s : States) (c : Connector) → Agrees s c → c.polled ≡ true → s ≡ connecting
polled_connecting disconnected c a h = let p : c.polled ≡ false = a.0 in cc
polled_connecting connecting c a h = refl
polled_connecting connected c a h = let p : c.polled ≡ false = a.0 in cc

stop-Agrees : (b : Bool) (s : States) (c : Connector) → Agrees s c → Agrees s (stop b c)
unfolding stop
stop-Agrees b disconnected c a = a
stop-Agrees b connecting c a = a
stop-Agrees b connected c a = a

reset-Agrees : (s : States) (c : Connector) → Agrees s c → c.resets ≡ 1 → Agrees s (reset_channel c)
unfolding reset_channel
reset-Agrees disconnected c (p, n, o) h = (p, rw h refl, o)
reset-Agrees connecting c (p, n, z, o) h = let never : ⊥ = omega arith in absurd never
reset-Agrees connected c (p, n, o) h = (p, rw h refl, o)

-- Good order is that of the state alone, whatever the flag and the timers.
with_flag :
    (c : Connector) (b : Bool) (n : ℕ) → Inv c → Inv (record c { connect_flag = b; retries = n })
with_flag c b n v = record {
  agrees = stop-Agrees-flag c.state v.agrees;
  single = v.single;
  least = v.least;
  most = v.most;
}
  where
    stop-Agrees-flag :
        (s : States) → Agrees s c → Agrees s (record c { connect_flag = b; retries = n })
    stop-Agrees-flag disconnected a = a
    stop-Agrees-flag connecting a = a
    stop-Agrees-flag connected a = a

idle : (s : States) (c : Connector) → Agrees s c → s ≢ connecting → Agrees disconnected c
idle disconnected c a h = a
idle connecting c a h = absurd (h refl)
idle connected c a h = a

pub step-Inv :
    (e : Event) (c : Connector)
    → Inv c
    → May e c
    → ((step e c ≡ none) × Asserts e c) ⊎ Returns Inv (step e c)
unfolding step start restart stop reset_channel Tried
step-Inv (starts sockfd errno) c v m = elim (is_disconnected_iff c.state) [
  | inl d ↦
      elim (start_in_loop-Tried sockfd errno (record c { connect_flag = true })
        (with_flag c true c.retries v) d) [ inl (n, s) ↦ inl (n, inr s) | inr i ↦ inr i ]
  | inr (d, x) ↦ inl (start_in_loop-none sockfd errno (record c { connect_flag = true }) d, inl x)
]
step-Inv (restarts sockfd errno) c v m =
    start_in_loop-Tried sockfd errno
      (record c { state = disconnected; retry_delay_ms = init_retry_delay_ms; connect_flag = true })
      (record {
        agrees = idle c.state c v.agrees m;
        single = v.single;
        least = omega arith;
        most = omega arith;
      })
      refl
step-Inv (stops cancelled) c v m = inr (record {
  agrees = stop-Agrees cancelled c.state c v.agrees;
  single = v.single;
  least = v.least;
  most = v.most;
})
step-Inv (is_writable failed) c v m =
    inr (write-Inv failed c v (polled_connecting c.state c v.agrees m))
step-Inv has_error c v m = inr (error-Inv c v (polled_connecting c.state c v.agrees m))
step-Inv is_reset c v m = inr (record {
  agrees = reset-Agrees c.state c v.agrees (omega (arith, v.single, m));
  single = omega (arith, v.single);
  least = v.least;
  most = v.most;
})
step-Inv (timer_fires sockfd errno) c v m = elim (is_disconnected_iff c.state) [
  | inl d ↦
      elim (start_in_loop-Tried sockfd errno (record c { retries = c.retries - 1 })
        (with_flag c c.connect_flag (c.retries - 1) v) d) [
          | inl (n, s) ↦ inl (n, inr s)
          | inr i ↦ inr i
        ]
  | inr (d, x) ↦
      inl (start_in_loop-none sockfd errno (record c { retries = c.retries - 1 }) d, inl x)
]
