-- ===== src/Reactor/Tests.antt =====
-- A concrete kernel, and the theorems on the reactor at small inputs.
use libcpp.Prelude.{
  ℕ, ◌≡◌, refl, Bool, true, false, Option, none, some, List, [], ◌∷◌, ◌++◌, ◌==◌, if◌then◌else◌,
  Returns, Bool-cases, arith, inr, ◌⊎◌, inl,
}
use libcpp.Reactor.Channel.{Channel, Callbacks, reads, errors, handle_event, new, added}
use libcpp.Reactor.EPoller.{
  Epoll, EPoller, CtlOp, ctl_add, ctl_mod, ctl_del, registration, update_at, update_channel,
  remove_channel,
}
use libcpp.Reactor.EPoller.Sync.{
  Inv, Registered, Outcome, update_channel-Outcome, remove_channel-Registered,
}
use libcpp.Reactor.EventLoop.{EventLoop, init, push}
use libcpp.Reactor.EventLoop.Threads.{
  System, first_polling, enters, tests, initial, Reach, start, later, other_pushes, Awake,
  no_lost_wakeup, functors_in_order,
}

-- An interest list as a function, with the results of epoll_ctl(2).
abbrev Table : Type 0
Table = ℕ → Option (ℕ × ℕ)

-- EPOLL_CTL_ADD fails on a descriptor that is registered, the others on
-- one that is not.
abbrev allowed : CtlOp → Option (ℕ × ℕ) → Bool
allowed ctl_add none = true
allowed ctl_add (some w) = false
allowed ctl_mod none = false
allowed ctl_mod (some w) = true
allowed ctl_del none = false
allowed ctl_del (some w) = true

abbrev table_ctl : Table → CtlOp → ℕ → ℕ → ℕ → Table × Bool
table_ctl s op fd events ptr =
    if allowed op (s fd) then (update_at s fd (registration op events ptr), true) else (s, false)

table_deletes :
    (s : Table) (fd events ptr : ℕ) (w : ℕ × ℕ)
    → s fd ≡ some w
    → (table_ctl s ctl_del fd events ptr).1 ≡ true
table_deletes s fd events ptr w h = rw h

table_watched :
    (s : Table) (op : CtlOp) (fd events ptr other : ℕ)
    → (table_ctl s op fd events ptr).1 ≡ true
    → (table_ctl s op fd events ptr).0 other
      ≡ (if fd == other then registration op events ptr else s other)
table_watched s op fd events ptr other h = elim (Bool-cases (allowed op (s fd))) [
  | inl t ↦ rw t
  | inr t ↦ ground (arith, t, h)
]

abbrev kernel : Epoll
kernel = record {
  State = Table;
  watched = λ s fd. s fd;
  ctl = table_ctl;
  deletes = table_deletes;
  watched-ctl = table_watched;
}

-- The channel at address `p` has descriptor `p`; the one at 3 wants to read.
abbrev unregistered : EPoller kernel
unregistered = record {
  kernel = λ fd. none;
  events_size = 16;
  channels = λ fd. none;
  heap = λ p. record { fd = p; events = if p == 3 then 0x2003 else 0; revents = 0; index = new };
}

unregistered-Inv : Inv kernel (λ p. true) unregistered
unregistered-Inv = record { sync = λ p h. refl; distinct = λ p q hp hq h. h }

update_channel-Outcome_example :
    Outcome kernel
      (λ p. true)
      unregistered
      3
      unregistered-Inv
      refl
      new
      false
      (update_channel kernel true 3 unregistered)
update_channel-Outcome_example =
    update_channel-Outcome kernel (λ p. true) unregistered 3 unregistered-Inv refl

remove_channel-Registered_example :
    Returns
      (Registered kernel (λ p. true) unregistered 3 none)
      (remove_channel kernel true 3 unregistered)
remove_channel-Registered_example =
    remove_channel-Registered kernel (λ p. true) unregistered 3 unregistered-Inv refl

abbrev all_set : Callbacks
all_set = record { read = true; write = true; error = true }

abbrev with_events : ℕ → Channel
with_events e = record { fd = 3; events = 0x2003; revents = e; index = added }

-- An error and input: the error callback comes first.
dispatch_runs : handle_event all_set (with_events 0x9) ≡ errors ∷ reads ∷ []
unfolding handle_event
dispatch_runs = refl

-- The loop is in its first `poll`; another thread has queued functor 5 and not yet written the
-- eventfd.
abbrev pushed : System
pushed = record initial {
  loop = push 5 (record initial.loop { looping = true; quit_flag = false });
  phase = first_polling;
  owed = 1;
  queued = 5 ∷ [];
}

pushed-Reach : Reach pushed
pushed-Reach = later (later (later start (enters refl)) (tests refl)) (other_pushes 5)

no_lost_wakeup_example :
    Awake pushed ⊎ ((first_polling ≡ first_polling) × (pushed.loop.pending_functors ≡ []))
unfolding push
no_lost_wakeup_example = no_lost_wakeup pushed-Reach (inl refl) (λ h. cc)

abbrev quitting : System
quitting = record initial { loop = record initial.loop { quit_flag = true }; owed = 1 }

functors_in_order_example : pushed.queued ≡ [] ++ ([] ++ pushed.loop.pending_functors)
functors_in_order_example = functors_in_order pushed-Reach

-- Functors 1 and 2 are queued; 2 queues 7 and 8.
abbrev two_queued : EventLoop
two_queued = record init { pending_functors = 1 ∷ 2 ∷ [] }

abbrev calls : ℕ → List ℕ
calls f = if f == 2 then 7 ∷ 8 ∷ [] else []
