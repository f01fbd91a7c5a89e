-- ===== src/Net/Udp.antt =====
-- src/net/UdpServer.h, UdpServer.cc, UdpClient.h and UdpClient.cc: datagrams in and out. An address is a
-- number. `none` is an access out of range.
pub mod Input
mod Tests
use libcpp.Prelude.{ℕ, Option, none, some, List, [], ◌∷◌, ◌++◌, length, take, ◌>>=◌}
use libcpp.Io.Buffer.{Buffer, writable_bytes, write_bytes, has_written}
use libcpp.Io.Buffer as Buffer

-- `sent` has what sendto(2) took, with the address.
pub record Udp : Type 0 where
  pub input_buffer : Buffer
  pub sent : List (ℕ × List ℕ)

-- What recvfrom(2) finds: a datagram and its sender, or an error. It puts as much of a datagram as there is
-- room for into the buffer, and drops the rest.
pub data Datagram : Type 0 where
  datagram : ℕ → List ℕ → Datagram
  failed : Datagram

-- The message callback: what it makes of the buffer, with the sender.
abbrev pub MessageCallback : Type 0
MessageCallback = ℕ → Buffer → Option Buffer

-- The constructors.
unfoldable pub init : Option Udp
init = Buffer.init >>= λ b. some (record { input_buffer = b; sent = [] })

unfoldable pub handle_read : MessageCallback → Datagram → Udp → Option Udp
handle_read message failed u = some u
handle_read message (datagram peer bytes) u = do
  let new = take (writable_bytes u.input_buffer) bytes
  b ← write_bytes u.input_buffer new
  b' ← message peer (has_written b (length new))
  some (record u { input_buffer = b' })

-- A datagram is sent as a whole, or there is an error, which is only logged.
unfoldable pub sendto : Option ℕ → List ℕ → ℕ → Udp → Udp
sendto none msg peer u = u
sendto (some n) msg peer u = record u { sent = u.sent ++ ((peer, take n msg) ∷ []) }
