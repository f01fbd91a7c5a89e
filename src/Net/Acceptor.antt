-- ===== src/Net/Acceptor.antt =====
-- src/net/Acceptor.h and Acceptor.cc. The user of an acceptor has a state, which its callback changes;
-- `closed` has the descriptors that were closed. `none` is a failed assertion or a fatal error.
pub mod Served
mod Tests
use libcpp.Prelude.{
  ℕ, Bool, true, false, Option, none, some, List, [], ◌∷◌, ◌++◌, ◌>>=◌, ◌>>◌, assert, SysResult,
  count, fail,
}
use libcpp.Reactor.Channel.{Channel, enable_reading}
use libcpp.Reactor.Channel as Channel
use libcpp.Net.Socket.{Inet, SockAddr, Logs, Accept4, socket_accept, any_address, or_die}

pub record Acceptor : Type 0 where
  pub accept_channel : Channel
  pub listening : Bool
  pub closed : List ℕ

-- The constructor, with what socket and bind return.
unfoldable pub init : SysResult → SysResult → Option Acceptor
init socket bind = do
  sockfd ← or_die socket
  ret ← or_die bind
  some (record { accept_channel = Channel.init sockfd; listening = false; closed = [] })

-- With what listen returns; the call of `update()` is the poller's.
unfoldable pub listen : Bool → SysResult → Acceptor → Option Acceptor
listen in_loop ret a = do
  assert in_loop
  n ← or_die ret
  some (record a { listening = true; accept_channel = enable_reading a.accept_channel })

abbrev pub NewConnCallback {ℓ} : Type ℓ → Type ℓ
NewConnCallback S = ℕ → SockAddr → S → Option S

module _ {ℓ} {S : Type ℓ} where
  -- What follows `accept`, for its result and `peerAddr`.
  abbrev pub hand_over :
      Option (NewConnCallback S) → SysResult → SockAddr → Acceptor × S → Option (Acceptor × S)
  hand_over cb (fail e) peer (a, s) = some (a, s)
  hand_over none (count connfd) peer (a, s) =
      some (record a { closed = a.closed ++ (connfd ∷ []) }, s)
  hand_over (some cb) (count connfd) peer (a, s) = cb connfd peer s >>= λ s'. some (a, s')

  module _ (inet : Inet) where
    unfoldable pub handle_read :
        Bool → Option (NewConnCallback S) → Accept4 → Acceptor × S → Option (Acceptor × S)
    handle_read in_loop cb result st =
        assert in_loop
        >> (let (connfd, peer_addr, logs) = socket_accept result (any_address inet 0) in
            hand_over cb connfd peer_addr st)
