-- ===== src/Reactor/EPoller.antt =====
-- src/reactor/EPoller.h and src/reactor/EPoller.cc: the channels of a loop and the interest list
-- of its epoll instance. The kernel is a parameter; `none` is an abort.
pub mod Sync
use libcpp.Prelude.{
  ℕ, ◌*◌, ◌≡◌, Bool, true, false, Option, none, some, List, [], ◌∷◌, ◌==◌, if◌then◌else◌, ◌>>=◌,
  ◌>>◌, assert, length,
}
use libcpp.Reactor.Channel.{
  Channel, Index, new, added, deleted, is_none_event, set_index, set_revents,
}

-- The operations of `epoll_ctl`.
pub data CtlOp : Type 0 where
  ctl_add ctl_mod ctl_del : CtlOp

-- The registration that an operation leaves: an event mask and the pointer in `data.ptr`.
abbrev pub registration : CtlOp → ℕ → ℕ → Option (ℕ × ℕ)
registration ctl_add events ptr = some (events, ptr)
registration ctl_mod events ptr = some (events, ptr)
registration ctl_del events ptr = none

-- An epoll instance: its interest list by descriptor, and `epoll_ctl`, which tells if it succeeded. As
-- epoll_ctl(2) has it, a success leaves the registration, and EPOLL_CTL_ADD and EPOLL_CTL_MOD may
-- fail at any time (EPERM, ENOMEM, ENOSPC). The reasons for which
-- EPOLL_CTL_DEL fails on an open descriptor are that it is not registered, or could never be.
pub record Epoll : Type 1 where
  pub State : Type 0
  pub watched : State → ℕ → Option (ℕ × ℕ)
  pub ctl : State → CtlOp → ℕ → ℕ → ℕ → State × Bool
  pub deletes :
      (s : State) (fd events ptr : ℕ) (w : ℕ × ℕ)
      → watched s fd ≡ some w
      → (ctl s ctl_del fd events ptr).1 ≡ true
  pub watched-ctl :
      (s : State) (op : CtlOp) (fd events ptr other : ℕ)
      → (ctl s op fd events ptr).1 ≡ true
      → watched (ctl s op fd events ptr).0 other
        ≡ (if fd == other then registration op events ptr else watched s other)

abbrev pub update_at {ℓ} : {A : Type ℓ} → (ℕ → A) → ℕ → A → ℕ → A
update_at f i a j = if i == j then a else f j

module _ (k : Epoll) where
  -- `heap` gives the channel at each address; `channels` is the map of the source.
  pub record EPoller : Type 0 where
    pub kernel : k.State
    pub events_size : ℕ
    pub channels : ℕ → Option ℕ
    pub heap : ℕ → Channel

  -- A failed EPOLL_CTL_DEL is logged; any other failure is fatal.
  abbrev survives : CtlOp → Bool → Bool
  survives ctl_del succeeded = true
  survives op succeeded = succeeded

  pub update : CtlOp → ℕ → EPoller → Option EPoller
  update op ptr e =
      let c = e.heap ptr in
      let (kernel', succeeded) = k.ctl e.kernel op c.fd c.events ptr in
      do assert (survives op succeeded); some (record e { kernel = kernel' })

  pub mark : ℕ → Index → EPoller → EPoller
  mark ptr index e = record e { heap = update_at e.heap ptr (set_index (e.heap ptr) index) }

  -- `in_loop` tells if the caller's thread is the loop's.
  pub update_channel : Bool → ℕ → EPoller → Option EPoller
  unfolding mark
  update_channel in_loop ptr e = do
    assert in_loop
    elim (e.heap ptr).index [
      | new ↦
          update ctl_add ptr (
            mark ptr added
              (record e { channels = update_at e.channels (e.heap ptr).fd (some ptr) }))
      | deleted ↦ update ctl_add ptr (mark ptr added e)
      | added ↦
          if is_none_event (e.heap ptr)
          then (update ctl_del ptr e >>= λ e'. some (mark ptr deleted e'))
          else update ctl_mod ptr e
    ]

  pub remove_channel : Bool → ℕ → EPoller → Option EPoller
  unfolding mark
  remove_channel in_loop ptr e = do
    assert in_loop
    let erased = record e { channels = update_at e.channels (e.heap ptr).fd none }
    e' ← elim (e.heap ptr).index [ added ↦ update ctl_del ptr erased | _ ↦ some erased ]
    some (mark ptr new e')

  -- `ready` are the addresses and events that `epoll_wait` wrote.
  pub fill_active_channels : List (ℕ × ℕ) → EPoller → EPoller × List ℕ
  fill_active_channels [] e = (e, [])
  fill_active_channels ((ptr, revents) ∷ ready) e =
      let (e', active) =
        fill_active_channels ready
          (record e { heap = update_at e.heap ptr (set_revents (e.heap ptr) revents) }) in
      (e', ptr ∷ active)

  -- `none` stands for a call of `epoll_wait` that failed.
  pub poll : Option (List (ℕ × ℕ)) → EPoller → EPoller × List ℕ
  poll none e = (e, [])
  poll (some []) e = (e, [])
  poll (some (r ∷ ready)) e =
      let (e', active) = fill_active_channels (r ∷ ready) e in
      (
        (if length (r ∷ ready) == e'.events_size
            then record e' { events_size = length (r ∷ ready) * 2 }
            else e'),
        active,
      )
