-- ===== src/Net/Connector/Stopped.antt =====
-- `stop`, and what is left of an attempt that was under way.
use libcpp.Prelude.{ℕ, ◌+◌, ◌≡◌, refl, true, false, none, Returns}
use libcpp.Net.Connector.{
  Connector, disconnected, connecting, is_none, goes_ahead, connecting_on, connect, start_in_loop,
  start, close, stop, remove_and_reset_channel, handle_write,
}
use libcpp.Net.Connector.Accounts.{Inv, in_state}

-- A connector that is stopped while it connects closes its descriptor when the connection is made,
-- but ends as connected: a later `start` then fails its assertion.
pub stop_connecting :
    (c : Connector)
    → Inv c
    → c.state ≡ connecting
    → (sockfd errno : ℕ)
    → Returns
        (λ c'. (c'.closed ≡ c.closed + 1) × (c'.handed ≡ c.handed) × (start sockfd errno c' ≡ none))
        (handle_write false (stop true c))
unfolding handle_write stop remove_and_reset_channel close start start_in_loop
stop_connecting c v e sockfd errno = rw (e, (in_state v e).1) (refl, refl, refl)

-- If `stop` finds no timer to cancel while a retry waits, then a `start` that connects at once makes
-- the waiting timer fail the assertion of `startInLoop`.
pub start_twice :
    (c : Connector)
    → c.state ≡ disconnected
    → is_none c.channel ≡ true
    → (sockfd errno : ℕ) → goes_ahead errno ≡ true
    → (sockfd' errno' : ℕ)
    → Returns
        (λ c'. (c'.retries ≡ c.retries) × (start_in_loop sockfd' errno' c' ≡ none))
        (start sockfd errno (stop false c))
unfolding stop start start_in_loop connect connecting_on
start_twice c d n sockfd errno h sockfd' errno' = rw (d, h, n) (refl, refl)
