-- ===== src/Net/TcpConnection.antt =====
-- src/net/TcpConnection.h and src/net/TcpConnection.cc. The results of system calls are arguments,
-- the user's callbacks are functions on the connection, and `none` is an abort.
pub mod Stream
pub mod Send
pub mod Write
pub mod Shutdown
pub mod Lifecycle
use libcpp.Prelude.{
  ℕ, Bool, true, false, not, ◌&&◌, Option, none, some, List, ◌++◌, ltb, ◌==◌, if◌then◌else◌, ◌>>=◌,
  ◌>>◌, assert, length, take, drop, SysResult, count, fail,
}
use libcpp.Io.Buffer.{Buffer, Incoming, readable_bytes, peek, retrieve, append, read_fd}
use libcpp.Reactor.Channel.{
  Channel, enable_reading, enable_writing, disable_writing, disable_all_events, is_writing,
}

pub data ConnState : Type 0 where
  connecting connected disconnecting disconnected : ConnState

-- `wire` is what the kernel has taken to send, `wire_closed` tells if the socket is shut down for
-- writing, and `polled` is what the poller was last told of the channel.
pub record TcpConnection : Type 0 where
  pub state : ConnState
  pub channel : Channel
  pub input_buffer : Buffer
  pub output_buffer : Buffer
  pub wire : List ℕ
  pub wire_closed : Bool
  pub polled : Option ℕ

abbrev pub Callback : Type 0
Callback = TcpConnection → Option TcpConnection

-- The callbacks that the owner sets; a missing `write_complete` is not called.
pub record Callbacks : Type 0 where
  pub connection : Callback
  pub message : Callback
  pub close : Callback
  pub write_complete : Option Callback

unfoldable pub notify : Option Callback → Callback
notify none c = some c
notify (some f) c = f c

-- The channel's `update()`.
unfoldable pub update : TcpConnection → TcpConnection
update c = record c { polled = some c.channel.events }

-- `loop_->removeChannel`
unfoldable pub remove_channel : TcpConnection → TcpConnection
remove_channel c = record c { polled = none }

abbrev pub is_open : ConnState → Bool
is_open connecting = false
is_open connected = true
is_open disconnecting = true
is_open disconnected = false

abbrev pub is_disconnecting : ConnState → Bool
is_disconnecting connecting = false
is_disconnecting connected = false
is_disconnecting disconnecting = true
is_disconnecting disconnected = false

-- Nothing waits to be written, so that `sendInLoop` may write at once.
unfoldable pub may_write : TcpConnection → Bool
may_write c = not (is_writing c.channel) && readable_bytes c.output_buffer == 0

-- The direct write: its count, whether it was complete, and the connection.
unfoldable pub attempt : SysResult → List ℕ → TcpConnection → ℕ × Bool × TcpConnection
attempt (count n) msg c = (n, not (ltb n (length msg)), record c { wire = c.wire ++ take n msg })
attempt (fail errno) msg c = (0, false, c)

unfoldable pub want_write : TcpConnection → TcpConnection
want_write c =
    if is_writing c.channel then c else update (record c { channel = enable_writing c.channel })

-- The second half of `sendInLoop`: what was not written goes to the output buffer.
pub keep_rest : ℕ → List ℕ → TcpConnection → Option TcpConnection
keep_rest nwrote msg c =
    if ltb nwrote (length msg)
    then (append c.output_buffer (drop nwrote msg) >>= λ out.
        some (want_write (record c { output_buffer = out })))
    else some c

-- The socket's `shutdownWrite`, unless bytes wait to be written.
unfoldable pub shutdown_write : TcpConnection → TcpConnection
shutdown_write c = if is_writing c.channel then c else record c { wire_closed = true }

pub shutdown_in_loop : Bool → TcpConnection → Option TcpConnection
shutdown_in_loop in_loop c = do assert in_loop; some (shutdown_write c)

-- What a call from another thread leaves to the loop.
pub data Task : Type 0 where
  sends : List ℕ → Task
  shutdowns : Task

pub shutdown : Bool → TcpConnection → Option Task × TcpConnection
shutdown in_loop c = elim c.state [
  | connected ↦
      let c' = record c { state = disconnecting } in
      if in_loop then (none, shutdown_write c') else (some shutdowns, c')
  | _ ↦ (none, c)
]

module _ (cb : Callbacks) where
  -- `written` is the result of `write`, if the code gets to call it.
  pub send_in_loop : Bool → SysResult → List ℕ → TcpConnection → Option TcpConnection
  send_in_loop in_loop written msg c = do
    assert in_loop
    let (nwrote, complete, c') = if may_write c then attempt written msg c else (0, false, c)
    c'' ← if complete then notify cb.write_complete c' else some c'
    keep_rest nwrote msg c''

  pub send : Bool → SysResult → List ℕ → TcpConnection → Option (Option Task × TcpConnection)
  send in_loop written msg c = elim c.state [
    | connected ↦ send_in_loop in_loop written msg c >>= λ c'. some (none, c')
    | _ ↦
        if in_loop
        then (send_in_loop true written msg c >>= λ c'. some (none, c'))
        else some (some (sends msg), c)
  ]

  -- The branch of `handleWrite` in which the output buffer has run empty.
  pub drained : TcpConnection → Option TcpConnection
  drained c = do
    c' ← notify cb.write_complete (update (record c { channel = disable_writing c.channel }))
    if is_disconnecting c'.state then shutdown_in_loop true c' else some c'

  -- `write` took `n` bytes of the output buffer.
  pub advance : ℕ → TcpConnection → Option TcpConnection
  advance n c = do
    out ← retrieve c.output_buffer n
    let c' = record c { output_buffer = out; wire = c.wire ++ take n (peek c.output_buffer) }
    if readable_bytes out == 0 then drained c' else some c'

  pub handle_write : Bool → SysResult → TcpConnection → Option TcpConnection
  handle_write in_loop (count n) c = do
    assert in_loop
    if is_writing c.channel && ltb 0 n then advance n c else some c
  handle_write in_loop (fail errno) c = do assert in_loop; some c

  pub handle_close : Bool → TcpConnection → Option TcpConnection
  handle_close in_loop c = do
    assert in_loop
    assert (is_open c.state)
    cb.close (update (record c { channel = disable_all_events c.channel }))

  after_read : Bool → SysResult → TcpConnection → Option TcpConnection
  after_read in_loop (count n) c = if n == 0 then handle_close in_loop c else cb.message c
  after_read in_loop (fail errno) c = some c

  pub handle_read : Bool → Incoming → TcpConnection → Option TcpConnection
  unfolding after_read
  handle_read in_loop incoming c = do
    (n, input) ← read_fd c.input_buffer incoming
    after_read in_loop n (record c { input_buffer = input })

  pub connect_established : Bool → TcpConnection → Option TcpConnection
  connect_established in_loop c = do
    assert in_loop
    elim c.state [
      | connecting ↦
          cb.connection
            (update (record c { state = connected; channel = enable_reading c.channel }))
      | _ ↦ none
    ]

  pub connect_destroyed : Bool → TcpConnection → Option TcpConnection
  connect_destroyed in_loop c = do
    assert in_loop
    assert (is_open c.state)
    c' ←
        cb.connection
          (update (record c { state = disconnected; channel = disable_all_events c.channel }))
    some (remove_channel c')
