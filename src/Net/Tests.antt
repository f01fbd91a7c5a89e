-- ===== src/Net/Tests.antt =====
-- The theorems on class TcpConnection at small inputs.
use libcpp.Prelude.{
  ℕ, ◌+◌, ◌≡◌, refl, Bool, true, false, none, some, List, [], ◌∷◌, ◌++◌, arith, replicate, length,
  Returns, count, append-nil, sym,
}
use libcpp.Io.Buffer.{Buffer, readable_bytes}
use libcpp.Io.Buffer.Room.{IsValid}
use libcpp.Reactor.Channel.{new}
use libcpp.Reactor.Channel.Bits.{interest}
use libcpp.Net.TcpConnection.{
  TcpConnection, ConnState, connected, disconnecting, Callbacks, notify, send_in_loop, handle_write,
}
use libcpp.Net.TcpConnection.Stream.{Inv, stream, Sent}
use libcpp.Net.TcpConnection.Send.{Quiet, send_in_loop-Sent}
use libcpp.Net.TcpConnection.Write.{handle_write-Sent}
use libcpp.Net.TcpConnection.Shutdown.{handle_write_last}
use libcpp.Net.TcpConnection.Lifecycle.{Passive}

-- Callbacks that do nothing.
abbrev silent : Callbacks
silent = record { connection = some; message = some; close = some; write_complete = none }

silent-Quiet : Quiet silent
unfolding notify
silent-Quiet c v = record { inv = v; whole = sym (append-nil (stream c)) }

silent-Passive : Passive silent.connection
silent-Passive c = (refl, refl)

-- A connection with the given unread bytes in both buffers.
abbrev buffer : List ℕ → Buffer
buffer l = record { bytes = replicate 8 0 ++ l; reader_index = 8; writer_index = 8 + length l }

abbrev connection : ConnState → Bool → List ℕ → TcpConnection
connection s w l = record {
  state = s;
  channel = record { fd = 3; events = interest true w; revents = 0; index = new };
  input_buffer = buffer [];
  output_buffer = buffer l;
  wire = 5 ∷ [];
  wire_closed = false;
  polled = some (interest true w);
}

two-IsValid : IsValid (buffer (1 ∷ 2 ∷ []))
two-IsValid = omega arith

none-IsValid : IsValid (buffer [])
none-IsValid = omega arith

abbrev busy : ConnState → TcpConnection
busy s = connection s true (1 ∷ 2 ∷ [])

busy-Inv : (s : ConnState) → Inv (busy s)
unfolding readable_bytes
busy-Inv s = record { out = two-IsValid; reading = true; wants = refl }

abbrev idle : TcpConnection
idle = connection connected false []

idle-Inv : Inv idle
unfolding readable_bytes
idle-Inv = record { out = none-IsValid; reading = true; wants = refl }

-- The kernel takes one byte of two.
send_in_loop-Sent_example :
    Returns (Sent idle (8 ∷ 9 ∷ [])) (send_in_loop silent true (count 1) (8 ∷ 9 ∷ []) idle)
send_in_loop-Sent_example =
    send_in_loop-Sent silent silent-Quiet (8 ∷ 9 ∷ []) idle idle-Inv (omega arith) (count 1)

handle_write-Sent_example :
    Returns (Sent (busy connected) []) (handle_write silent true (count 1) (busy connected))
unfolding readable_bytes
handle_write-Sent_example =
    handle_write-Sent silent silent-Quiet 1 (busy connected) (busy-Inv connected) (omega arith)

handle_write_last_example :
    Returns
      (λ c'. (c'.wire ≡ 5 ∷ 1 ∷ 2 ∷ []) × (c'.wire_closed ≡ true))
      (handle_write silent true (count (readable_bytes (buffer (1 ∷ 2 ∷ [])))) (busy disconnecting))
unfolding readable_bytes
handle_write_last_example =
    handle_write_last silent (busy disconnecting) refl (busy-Inv disconnecting) refl refl
