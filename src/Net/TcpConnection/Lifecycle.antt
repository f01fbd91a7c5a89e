-- ===== src/Net/TcpConnection/Lifecycle.antt =====
-- The states of class TcpConnection: which calls each of them admits.
use libcpp.Prelude.{
  ℕ, ◌≡◌, refl, true, false, none, some, List, Returns, Returns-bind, ◌>>=◌, SysResult,
}
use libcpp.Reactor.Channel.{disable_all_events}
use libcpp.Reactor.Channel.Bits.{Wants}
use libcpp.Net.TcpConnection.{
  TcpConnection, ConnState, connecting, connected, disconnecting, disconnected, Callback, Callbacks,
  is_open, update, remove_channel, send, send_in_loop, handle_close, connect_established,
  connect_destroyed,
}

-- In the loop's thread `send` writes whatever the state is, after `shutdown` and when the
-- connection is destroyed too; and in another thread it aborts if the connection is connected.
pub send_lem :
    (cb : Callbacks) (written : SysResult) (msg : List ℕ) (c : TcpConnection)
    → (send cb true written msg c ≡ (send_in_loop cb true written msg c >>= λ c'. some (none, c')))
      × (send cb false written msg (record c { state = connected }) ≡ none)
unfolding send send_in_loop
send_lem cb written msg c = (go c.state, refl)
  where
    go :
        (s : ConnState)
        → send cb true written msg (record c { state = s })
          ≡ (send_in_loop cb true written msg (record c { state = s }) >>= λ c'. some (none, c'))
    go connecting = refl
    go connected = refl
    go disconnecting = refl
    go disconnected = refl

-- The callback leaves the state and the channel alone.
abbrev pub Passive : Callback → Type 0
Passive f =
    (c : TcpConnection) → Returns (λ c'. (c'.state ≡ c.state) × (c'.channel ≡ c.channel)) (f c)

-- What `connectDestroyed` leaves.
pub record Destroyed (c : TcpConnection) : Type 0 where
  pub state : c.state ≡ disconnected
  pub idle : Wants false false c.channel
  pub unregistered : c.polled ≡ none

-- `connectDestroyed` of an open connection, whose connection callback leaves state and channel
-- alone, does not abort: the connection is disconnected, its
-- channel waits for nothing and is not in the poller. After it, neither a hang-up nor a second
-- `connectDestroyed` or `connectEstablished` runs: they fail their assertions.
pub connect_destroyed_lem :
    (cb : Callbacks) (c : TcpConnection)
    → Passive cb.connection
    → is_open c.state ≡ true
    → Returns
        (λ c'.
          Destroyed c'
          × (handle_close cb true c' ≡ none)
          × (connect_destroyed cb true c' ≡ none)
          × (connect_established cb true c' ≡ none))
        (connect_destroyed cb true c)
unfolding connect_destroyed handle_close connect_established update remove_channel
    disable_all_events
connect_destroyed_lem cb c passive opened = rw opened (
    Returns-bind _ _ (cb.connection shut) _ (passive shut) λ c' k.
      rw (k.0, k.1) (record { state = refl; idle = refl; unregistered = refl }, refl, refl, refl))
  where
    shut : TcpConnection
    shut = update (record c { state = disconnected; channel = disable_all_events c.channel })
