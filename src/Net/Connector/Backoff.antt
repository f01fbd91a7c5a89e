-- ===== src/Net/Connector/Backoff.antt =====
-- The delays between retries.
use native.Mathlib.Nat.{two-pow-succ}
use libcpp.Prelude.{
  ℕ, zero, suc, ◌+◌, ◌*◌, ◌^◌, ◌≡◌, refl, true, arith, min, ◌/◌, List, [], ◌∷◌, ◌++◌, map,
  map-append, append-nil, append_assoc, sym, ap₂, ◌∙◌,
}
use libcpp.Net.Connector.{Connector, max_retry_delay_ms, init_retry_delay_ms, close, retry}

-- `n` attempts in a row that are to be retried.
unfoldable pub refused : ℕ → Connector → Connector
refused zero c = c
refused (suc n) c = retry (refused n c)

-- The microseconds that `addTime` adds for a delay in seconds.
abbrev pub micros : ℕ × ℕ → ℕ
micros (seconds, parts) = seconds * 1000000 / parts

-- Half a second, doubled up to 30 seconds.
abbrev pub backoff : ℕ → List ℕ
backoff zero = []
backoff (suc n) = backoff n ++ (min (500000 * 2 ^ n) 30000000 ∷ [])

-- What `n` retries leave.
pub record Refused (n : ℕ) (c c' : Connector) : Type 0 where
  pub wanted : c'.connect_flag ≡ true
  pub delay : c'.retry_delay_ms ≡ min (init_retry_delay_ms * 2 ^ n) max_retry_delay_ms
  pub timers : map micros c'.delays ≡ map micros c.delays ++ backoff n
  pub waiting : c'.retries ≡ c.retries + n
  pub all_closed : c'.closed ≡ c.closed + n

-- From the first delay on, and while the connector is not stopped, the timers that `n` retries in a row
-- set run after half a second, one second, and so on, doubled up to 30 seconds; each retry closes one
-- descriptor and sets one timer, and the delay kept for the next one is doubled likewise.
pub refused-Refused :
    (n : ℕ) (c : Connector)
    → c.connect_flag ≡ true
    → c.retry_delay_ms ≡ init_retry_delay_ms
    → Refused n c (refused n c)
unfolding refused retry close
refused-Refused zero c w d = record {
  wanted = w;
  delay = d;
  timers = sym (append-nil (map micros c.delays));
  waiting = omega arith;
  all_closed = omega arith;
}
refused-Refused (suc n) c w d =
    let r = refused-Refused n c w d in
    rw r.wanted (record {
      wanted = refl;
      delay = omega (arith, r.delay, two-pow-succ n);
      timers =
          map-append micros (refused n c).delays (((refused n c).retry_delay_ms, 1000) ∷ [])
          ∙ ap₂ (λ xs d. xs ++ (d ∷ [])) r.timers (omega (arith, r.delay))
          ∙ append_assoc (map micros c.delays) (backoff n) _;
      waiting = omega (arith, r.waiting);
      all_closed = omega (arith, r.all_closed);
    })
