-- ===== src/Reactor/Channel.antt =====
-- src/reactor/Channel.h and src/reactor/Channel.cc: the events that a file descriptor waits for,
-- and the dispatch of those that came.
pub mod Bits
use Prim.Native.Nat.{bit_and, bit_or}
use libcpp.Prelude.{
  ℕ, ◌-◌, ◌^◌, ◌≡◌, refl, ◌≢◌, Bool, true, false, not, List, [], ◌∷◌, ◌++◌, arith, ◌==◌,
  if◌then◌else◌, ◌&&◌,
}

-- The bits of <poll.h> that the source names.
abbrev pub pollin : ℕ
pollin = 0x1

abbrev pub pollpri : ℕ
pollpri = 0x2

abbrev pub pollout : ℕ
pollout = 0x4

abbrev pub pollerr : ℕ
pollerr = 0x8

abbrev pub pollnval : ℕ
pollnval = 0x20

abbrev pub pollrdhup : ℕ
pollrdhup = 0x2000

abbrev pub none_event : ℕ
none_event = 0

abbrev pub read_event : ℕ
read_event = bit_or (bit_or pollin pollpri) pollrdhup

abbrev pub write_event : ℕ
write_event = pollout

-- `index_` is how the poller marks the channel: `kNew`, `kAdded`, `kDeleted` of EPoller.cc.
pub data Index : Type 0 where
  new added deleted : Index

pub record Channel : Type 0 where
  pub fd : ℕ
  pub events : ℕ
  pub revents : ℕ
  pub index : Index

-- The constructor.
unfoldable pub init : ℕ → Channel
init fd = record { fd = fd; events = 0; revents = 0; index = new }

-- `x & mask` as a condition.
abbrev pub has : ℕ → ℕ → Bool
has x mask = not (bit_and x mask == 0)

-- `events & ~mask` on 32 bits.
abbrev pub clear : ℕ → ℕ → ℕ
clear events mask = bit_and events (2 ^ 32 - 1 - mask)

-- The changes of `events_`; the call of `update()` that follows each is the caller's.
unfoldable pub enable_reading : Channel → Channel
enable_reading c = record c { events = bit_or c.events read_event }

unfoldable pub disable_reading : Channel → Channel
disable_reading c = record c { events = clear c.events read_event }

unfoldable pub enable_writing : Channel → Channel
enable_writing c = record c { events = bit_or c.events write_event }

unfoldable pub disable_writing : Channel → Channel
disable_writing c = record c { events = clear c.events write_event }

unfoldable pub disable_all_events : Channel → Channel
disable_all_events c = record c { events = none_event }

unfoldable pub is_writing : Channel → Bool
is_writing c = has c.events write_event

unfoldable pub is_none_event : Channel → Bool
is_none_event c = c.events == none_event

unfoldable pub set_revents : Channel → ℕ → Channel
set_revents c revents = record c { revents = revents }

unfoldable pub set_index : Channel → Index → Channel
set_index c index = record c { index = index }

-- Which of the callbacks that `handleEvent` looks at are set.
pub record Callbacks : Type 0 where
  pub read : Bool
  pub write : Bool
  pub error : Bool

pub data Call : Type 0 where
  reads writes errors : Call

abbrev when : Bool → Call → List Call
when b c = if b then c ∷ [] else []

-- The callbacks that `handleEvent` makes, in order.
unfoldable pub handle_event : Callbacks → Channel → List Call
handle_event set c =
    when (has c.revents (bit_or pollnval pollerr) && set.error) errors
    ++ (when (has c.revents read_event && set.read) reads
        ++ when (has c.revents write_event && set.write) writes)
