-- ===== src/Reactor/Poller.antt =====
-- src/reactor/Poller.h and src/reactor/Poller.cc, the back end over poll(2). A channel's index is its place
-- in `pollfds_`, or `none` before it has one; a descriptor `fd` that is to be ignored, `-fd - 1`, is the
-- pair of `fd` and `true`. `none` is an access out of range or through a null pointer.
pub mod Registered
pub mod Removed
pub mod Polled
mod Tests
use libcpp.Prelude.{
  ℕ, zero, suc, ◌&&◌, ◌+◌, ◌-◌, ◌%◌, ◌^◌, Bool, true, false, not, Option, none, some, List, [], ◌∷◌,
  ◌++◌, ltb, ◌==◌, if◌then◌else◌, ◌>>=◌, ◌>>◌, assert,
}
use libcpp.Reactor.EPoller.{update_at}

-- The fields of a channel that the poller uses.
pub record PollChannel : Type 0 where
  pub fd : ℕ
  pub events : ℕ
  pub revents : ℕ
  pub index : Option ℕ

-- `struct pollfd`
pub record PollFd : Type 0 where
  pub fd : ℕ
  pub ignored : Bool
  pub events : ℕ
  pub revents : ℕ

-- The entries of `pollfds_` are those below `size`. `heap` gives the channel at each address, `channels` is
-- the map of the source.
pub record Poller : Type 0 where
  pub pollfds : ℕ → PollFd
  pub size : ℕ
  pub channels : ℕ → Option ℕ
  pub heap : ℕ → PollChannel

abbrev pub set_index : ℕ → ℕ → Poller → Poller
set_index ptr idx p = record p {
  heap = update_at p.heap ptr (record (p.heap ptr) { index = some idx });
}

-- `pollfds_.push_back(pfd)` for a new channel.
unfoldable pub add_channel : ℕ → Poller → Poller
add_channel ptr p =
    let c = p.heap ptr in
    let pfd : PollFd = record {
      fd = c.fd;
      ignored = false;
      events = c.events % 2 ^ 16;
      revents = 0;
    } in
    let p' = record p { pollfds = update_at p.pollfds p.size pfd; size = p.size + 1 } in
    let p'' = set_index ptr (p'.size - 1) p' in
    record p'' { channels = update_at p''.channels c.fd (some ptr) }

abbrev pub changed : PollChannel → PollFd → PollFd
changed c pfd = record pfd {
  events = c.events % 2 ^ 16;
  revents = 0;
  ignored = if c.events == 0 then not pfd.ignored else pfd.ignored;
}

abbrev pub update_from : Option ℕ → ℕ → Poller → Option Poller
update_from none ptr p = some (add_channel ptr p)
update_from (some idx) ptr p = do
  assert (ltb idx p.size)
  some (record p { pollfds = update_at p.pollfds idx (changed (p.heap ptr) (p.pollfds idx)) })

-- `in_loop` tells if the caller's thread is the loop's.
unfoldable pub update_channel : Bool → ℕ → Poller → Option Poller
update_channel in_loop ptr p = do assert in_loop; update_from (p.heap ptr).index ptr p

-- The last entry moves to the place of the removed one, and its channel hears of it.
abbrev pub move_last : ℕ → Poller → Option Poller
move_last idx p = do
  assert (ltb idx p.size)
  let last = p.pollfds (p.size - 1)
  q ← p.channels last.fd
  some (set_index q idx (record p { pollfds = update_at p.pollfds idx last; size = p.size - 1 }))

abbrev pub remove_at : Option ℕ → Poller → Option Poller
remove_at none p = none
remove_at (some idx) p =
    if idx + 1 == p.size then some (record p { size = p.size - 1 }) else move_last idx p

unfoldable pub remove_channel : Bool → ℕ → Poller → Option Poller
remove_channel in_loop ptr p = do
  assert in_loop
  remove_at (p.heap ptr).index (record p { channels = update_at p.channels (p.heap ptr).fd none })

-- `pfd.fd` of an entry that is ignored is no key of `channels_`.
abbrev pub visit : Bool → PollFd → Poller → Option (List ℕ × Poller)
visit false pfd p = some ([], p)
visit true pfd p = do
  assert (not pfd.ignored)
  ptr ← p.channels pfd.fd
  let c = record (p.heap ptr) { revents = pfd.revents }
  some (ptr ∷ [], record p { heap = update_at p.heap ptr c })

-- The `n` entries from `i` on, until `active` of them were found with events.
unfoldable pub fill_from : ℕ → ℕ → ℕ → Poller → Option (List ℕ × Poller)
fill_from zero i active p = some ([], p)
fill_from (suc n) i active p =
    let hit = ltb 0 (p.pollfds i).revents in
    let left = if hit then active - 1 else active in
    visit hit (p.pollfds i) p >>= λ (found, p').
    let rest = fill_from n (i + 1) left p' in
    if hit && left == 0 then some (found, p') else (rest >>= λ (l, q). some (found ++ l, q))

unfoldable pub fill_active_channels : ℕ → Poller → Option (List ℕ × Poller)
fill_active_channels active p = fill_from p.size 0 active p

-- `poll`, with what poll(2) gives: the number of descriptors with events, or `none` for an error, and
-- the `revents` of each entry.
unfoldable pub poll : Option ℕ → (ℕ → ℕ) → Poller → Option (List ℕ × Poller)
poll active_nums revents p =
    let p' = record p { pollfds = λ i. record (p.pollfds i) { revents = revents i } } in
    elim active_nums [
      | none ↦ some ([], p')
      | some n ↦ if ltb 0 n then fill_active_channels n p' else some ([], p')
    ]
