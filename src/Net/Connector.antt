-- ===== src/Net/Connector.antt =====
-- src/net/Connector.h and src/net/Connector.cc, as called in the loop's thread. The results of system
-- calls are arguments; `none` is an assertion that fails.
pub mod Accounts
pub mod Backoff
pub mod Stopped
mod Tests
use libcpp.Prelude.{
  ℕ, ◌+◌, ◌-◌, ◌*◌, Bool, true, false, not, ◌||◌, Option, none, some, ◌==◌, if◌then◌else◌, ◌>>=◌,
  ◌>>◌, assert, min, List, [], ◌∷◌, ◌++◌,
}

pub data States : Type 0 where
  disconnected connecting connected : States

-- `polled` tells if the channel is in the poller, `resets` counts the calls of `resetChannel` that the
-- loop's queue holds, and `retries` the timers that wait to call `startInLoop`; `delays` are the
-- delays, as fractions of a second, that `runAfter` was called with, the latest last. The descriptors
-- that were made, closed and given to the callback are counted.
pub record Connector : Type 0 where
  pub connect_flag : Bool
  pub state : States
  pub channel : Option ℕ
  pub polled : Bool
  pub retry_delay_ms : ℕ
  pub resets : ℕ
  pub retries : ℕ
  pub delays : List (ℕ × ℕ)
  pub opened : ℕ
  pub closed : ℕ
  pub handed : ℕ

abbrev pub max_retry_delay_ms : ℕ
max_retry_delay_ms = 30 * 1000

abbrev pub init_retry_delay_ms : ℕ
init_retry_delay_ms = 500

-- The constructor.
abbrev pub init : Connector
init = record {
  connect_flag = false;
  state = disconnected;
  channel = none;
  polled = false;
  retry_delay_ms = init_retry_delay_ms;
  resets = 0;
  retries = 0;
  delays = [];
  opened = 0;
  closed = 0;
  handed = 0;
}

abbrev pub is_disconnected : States → Bool
is_disconnected disconnected = true
is_disconnected connecting = false
is_disconnected connected = false

abbrev pub is_none : Option ℕ → Bool
is_none none = true
is_none (some fd) = false

unfoldable pub close : Connector → Connector
close c = record c { closed = c.closed + 1 }

unfoldable pub retry : Connector → Connector
unfolding close
retry c =
    let c' = record (close c) { state = disconnected } in
    if c.connect_flag
    then record c' {
      retries = c.retries + 1;
      delays = c.delays ++ ((c.retry_delay_ms, 1000) ∷ []);
      retry_delay_ms = min (c.retry_delay_ms * 2) max_retry_delay_ms;
    }
    else c'

unfoldable pub connecting_on : ℕ → Connector → Option Connector
connecting_on sockfd c = do
  assert (is_none c.channel)
  some (record c { state = connecting; channel = some sockfd; polled = true })

-- The cases of the `switch` on `savedErrno`: 0, EINPROGRESS, EINTR, EISCONN; and EAGAIN, EADDRINUSE,
-- EADDRNOTAVAIL, ECONNREFUSED, ENETUNREACH.
abbrev pub goes_ahead : ℕ → Bool
goes_ahead errno = errno == 0 || (errno == 115 || (errno == 4 || errno == 106))

abbrev pub may_retry : ℕ → Bool
may_retry errno = errno == 11 || (errno == 98 || (errno == 99 || (errno == 111 || errno == 101)))

-- `sockfd` is the new descriptor, and `errno` what `connect` left, 0 if it succeeded.
unfoldable pub connect : ℕ → ℕ → Connector → Option Connector
connect sockfd errno c =
    let c' = record c { opened = c.opened + 1 } in
    if goes_ahead errno
    then connecting_on sockfd c'
    else some (if may_retry errno then retry c' else close c')

unfoldable pub start_in_loop : ℕ → ℕ → Connector → Option Connector
start_in_loop sockfd errno c = do
  assert (is_disconnected c.state)
  if c.connect_flag then connect sockfd errno c else some c

unfoldable pub start : ℕ → ℕ → Connector → Option Connector
start sockfd errno c = start_in_loop sockfd errno (record c { connect_flag = true })

unfoldable pub restart : ℕ → ℕ → Connector → Option Connector
restart sockfd errno c =
    start_in_loop sockfd errno
      (record c { state = disconnected; retry_delay_ms = init_retry_delay_ms; connect_flag = true })

-- `cancelled` tells if `loop_->cancel(timerId_)` found a timer.
unfoldable pub stop : Bool → Connector → Connector
stop cancelled c = record c {
  connect_flag = false;
  retries = if cancelled then c.retries - 1 else c.retries;
}

-- It dereferences the channel.
unfoldable pub remove_and_reset_channel : Connector → Option Connector
remove_and_reset_channel c = do
  assert (not (is_none c.channel))
  some (record c { polled = false; resets = c.resets + 1 })

unfoldable pub reset_channel : Connector → Connector
reset_channel c = record c { channel = none; resets = c.resets - 1 }

-- `failed` tells if SO_ERROR is set or the socket is connected to itself.
unfoldable pub handle_write : Bool → Connector → Option Connector
handle_write failed c = elim c.state [
  | connecting ↦
      (remove_and_reset_channel c >>= λ c'. some (
        if failed
        then retry c'
        else if c.connect_flag
        then record c' { state = connected; handed = c.handed + 1 }
        else record (close c') { state = connected }))
  | disconnected ↦ some c
  | connected ↦ none
]

unfoldable pub handle_error : Connector → Option Connector
handle_error c = elim c.state [
  | connecting ↦ (remove_and_reset_channel c >>= λ c'. some (retry c'))
  | _ ↦ none
]
