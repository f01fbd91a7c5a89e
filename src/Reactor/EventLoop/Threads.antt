-- ===== src/Reactor/EventLoop/Threads.antt =====
-- The loop's thread and any number of others, one access at a time, from the constructor on: which
-- functors the loop may sleep on, and the order in which they run.
use libcpp.Prelude.{
  ℕ, suc, ◌+◌, ◌<◌, ◌≡◌, ◌≢◌, refl, ap, ◌∙◌, Bool, true, false, List, [], ◌∷◌, ◌++◌, arith,
  append-nil, append_assoc, ◌⊎◌, inl, inr,
}
use libcpp.Reactor.EventLoop.{
  EventLoop, init, wakeup, handle_wakeup, push, queue_in_loop, quit, take_pending,
}

-- Where the loop's thread stands.
pub data Phase : Type 0 where
  starting : Phase  -- before `loop()`
  entered : Phase  -- in `loop()`, before the first test of `while`
  first_polling : Phase  -- in the first `poll`
  polling : Phase  -- in a later `poll`
  handling : Phase  -- in the callbacks of the active channels
  running : List ℕ → Phase  -- in `doPendingFunctors`, with the functors that are left
  stopped : Phase  -- behind the `while`

-- `owed` counts the threads between their change and their `wakeup()`. `queued` and `ran` record
-- the functors that were ever queued and run, and `early` those that the loop's own thread queued
-- before it called `loop()`.
pub record System : Type 0 where
  pub loop : EventLoop
  pub phase : Phase
  pub owed : ℕ
  pub queued : List ℕ
  pub ran : List ℕ
  pub early : List ℕ

-- Behind the constructor.
abbrev pub initial : System
initial = record { loop = init; phase = starting; owed = 0; queued = []; ran = []; early = [] }

abbrev pub next_phase : Bool → Phase
next_phase true = stopped
next_phase false = polling

-- The first test of `while`.
abbrev pub first_phase : Bool → Phase
first_phase true = stopped
first_phase false = first_polling

abbrev pub InPoll : Phase → Type 0
InPoll p = (p ≡ first_polling) ⊎ (p ≡ polling)

pub data Step (s : System) : System → Type 0 where
  -- Another thread in `queueInLoop` or `quit`, and later its `wakeup()`.
  other_pushes :
      (f : ℕ)
      → Step s (record s { loop = push f s.loop; owed = s.owed + 1; queued = s.queued ++ (f ∷ []) })
  other_quits : Step s (record s { loop = record s.loop { quit_flag = true }; owed = s.owed + 1 })
  other_wakes : {n : ℕ} → s.owed ≡ suc n → Step s (record s { loop = wakeup s.loop; owed = n })
  -- The loop's thread queues a functor before it calls `loop()`.
  queues_early :
      (f : ℕ)
      → s.phase ≡ starting
      → Step s (record s {
        loop = queue_in_loop true f s.loop;
        queued = s.queued ++ (f ∷ []);
        early = s.early ++ (f ∷ []);
      })
  -- `loop()` up to its `while`, and the first test of it.
  enters :
      s.phase ≡ starting
      → Step s
          (record s { loop = record s.loop { looping = true; quit_flag = false }; phase = entered })
  tests : s.phase ≡ entered → Step s (record s { phase = first_phase s.loop.quit_flag })
  -- `poll` returns, on an event or when its time is up.
  poll_returns : InPoll s.phase → Step s (record s { phase = handling })
  -- A callback: of the eventfd, or one that queues a functor or quits.
  wakeup_read : s.phase ≡ handling → Step s (record s { loop = handle_wakeup s.loop })
  handler_queues :
      (f : ℕ)
      → s.phase ≡ handling
      → Step s (record s { loop = queue_in_loop true f s.loop; queued = s.queued ++ (f ∷ []) })
  handler_quits : s.phase ≡ handling → Step s (record s { loop = quit true s.loop })
  takes :
      s.phase ≡ handling
      → Step s
          (record s { loop = (take_pending s.loop).1; phase = running (take_pending s.loop).0 })
  runs :
      {f : ℕ} {fs : List ℕ}
      → s.phase ≡ running (f ∷ fs)
      → Step s (record s { phase = running fs; ran = s.ran ++ (f ∷ []) })
  functor_queues :
      {fs : List ℕ} (f : ℕ)
      → s.phase ≡ running fs
      → Step s (record s { loop = queue_in_loop true f s.loop; queued = s.queued ++ (f ∷ []) })
  functor_quits :
      {fs : List ℕ} → s.phase ≡ running fs → Step s (record s { loop = quit true s.loop })
  finishes :
      s.phase ≡ running []
      → Step s (record s {
        loop = record s.loop { doing_pending_functors = false };
        phase = next_phase s.loop.quit_flag;
      })

pub data Reach : System → Type 0 where
  start : Reach initial
  later : {s t : System} → Reach s → Step s t → Reach t

-- The functors taken from the queue and not yet run.
abbrev pub taken : Phase → List ℕ
taken (running fs) = fs
taken starting = []
taken entered = []
taken first_polling = []
taken polling = []
taken handling = []
taken stopped = []

abbrev pub is_running : Phase → Bool
is_running (running fs) = true
is_running starting = false
is_running entered = false
is_running first_polling = false
is_running polling = false
is_running handling = false
is_running stopped = false

-- A wakeup is in the eventfd or on its way.
abbrev pub Awake : System → Type 0
Awake s = 0 < s.loop.wakeups + s.owed

-- Of what was queued, all is `early`, or a wakeup comes.
abbrev Early : EventLoop → ℕ → List ℕ → Type 0
Early l owed early = (l.pending_functors ≡ early) ⊎ (0 < l.wakeups + owed)

abbrev Urgent : Phase → EventLoop → ℕ → List ℕ → Type 0
Urgent starting l owed early = Early l owed early
Urgent entered l owed early = Early l owed early × (l.quit_flag ≡ true → 0 < l.wakeups + owed)
Urgent first_polling l owed early = Early l owed early × (l.quit_flag ≡ true → 0 < l.wakeups + owed)
Urgent polling l owed early =
    (l.pending_functors ≢ [] → 0 < l.wakeups + owed) × (l.quit_flag ≡ true → 0 < l.wakeups + owed)
Urgent (running fs) l owed early = l.pending_functors ≢ [] → 0 < l.wakeups + owed
Urgent handling l owed early = Unit
Urgent stopped l owed early = Unit

record Inv (s : System) : Type 0 where
  doing : s.loop.doing_pending_functors ≡ is_running s.phase
  urgent : Urgent s.phase s.loop s.owed s.early
  order : s.queued ≡ s.ran ++ (taken s.phase ++ s.loop.pending_functors)

module _ {s : System} (v : Inv s) where
  open v use {doing, urgent, order}

  push_order :
      (f : ℕ)
      → s.queued ++ (f ∷ []) ≡ s.ran ++ (taken s.phase ++ (s.loop.pending_functors ++ (f ∷ [])))
  push_order f =
      ap (λ xs. xs ++ (f ∷ [])) order
      ∙ append_assoc s.ran (taken s.phase ++ s.loop.pending_functors) (f ∷ [])
      ∙ ap (◌++◌ s.ran) (append_assoc (taken s.phase) s.loop.pending_functors (f ∷ []))

-- With a wakeup on its way nothing else is asked.
Awake-Urgent :
    (p : Phase) (l : EventLoop) (n : ℕ) (early : List ℕ) → 0 < l.wakeups + n → Urgent p l n early
Awake-Urgent starting l n early h = inr h
Awake-Urgent entered l n early h = (inr h, λ _. h)
Awake-Urgent first_polling l n early h = (inr h, λ _. h)
Awake-Urgent polling l n early h = (λ _. h, λ _. h)
Awake-Urgent handling l n early h = tt
Awake-Urgent (running fs) l n early h = λ _. h
Awake-Urgent stopped l n early h = tt

Step-Inv : {s t : System} → Step s t → Inv s → Inv t
unfolding push wakeup handle_wakeup queue_in_loop quit take_pending
Step-Inv {s} (other_pushes f) v = record {
  doing = v.doing;
  urgent = Awake-Urgent s.phase _ _ _ (omega arith);
  order = push_order v f;
}
Step-Inv {s} other_quits v = record {
  doing = v.doing;
  urgent = Awake-Urgent s.phase _ _ _ (omega arith);
  order = v.order;
}
Step-Inv {s} (other_wakes e) v = record {
  doing = v.doing;
  urgent = Awake-Urgent s.phase _ _ _ (omega arith);
  order = v.order;
}
Step-Inv {s} (queues_early f p) v = ground (arith, v.doing, v.urgent, push_order v f)
Step-Inv {s} (enters p) v = ground (arith, v.doing, v.urgent, v.order)
Step-Inv {s} (tests p) v = ground (arith, v.doing, v.urgent, v.order)
Step-Inv (poll_returns p) v = ground (arith, v.doing, v.order)
Step-Inv (wakeup_read p) v = ground (arith, v.doing, v.order)
Step-Inv (handler_queues f p) v = ground (arith, v.doing, push_order v f)
Step-Inv (handler_quits p) v = ground (arith, v.doing, v.order)
Step-Inv {s} (takes p) v = ground (arith, v.doing, v.order, append-nil s.loop.pending_functors)
Step-Inv {s} (runs {f} {fs} p) v =
    ground (arith, v.doing, v.order, append_assoc s.ran (f ∷ []) (fs ++ s.loop.pending_functors))
Step-Inv (functor_queues f p) v = ground (arith, v.doing, push_order v f)
Step-Inv (functor_quits p) v = ground (arith, v.doing, v.order)
Step-Inv (finishes p) v = ground (arith, v.doing, v.order)

Reach-Inv : {s : System} → Reach s → Inv s
Reach-Inv start = record { doing = refl; urgent = inl refl; order = refl }
Reach-Inv (later r st) = Step-Inv st (Reach-Inv r)

-- No wakeup is lost but those of functors that the loop's own thread queued before `loop()`: in every
-- reachable state in which that thread is in `poll` while a functor is queued, the eventfd is
-- readable, or some thread is about to write it, or it is the first `poll` and the queue is exactly
-- what that thread had queued before.
pub no_lost_wakeup :
    {s : System}
    → Reach s
    → InPoll s.phase
    → s.loop.pending_functors ≢ []
    → Awake s ⊎ ((s.phase ≡ first_polling) × (s.loop.pending_functors ≡ s.early))
no_lost_wakeup r (inl p) h = ground (arith, Reach-Inv r)
no_lost_wakeup r (inr p) h = ground (arith, Reach-Inv r)

-- Nor does the loop sleep through a `quit` that was called after it had started.
pub no_lost_quit : {s : System} → Reach s → InPoll s.phase → s.loop.quit_flag ≡ true → Awake s
no_lost_quit r (inl p) h = ground (arith, Reach-Inv r)
no_lost_quit r (inr p) h = ground (arith, Reach-Inv r)

-- In every reachable state the functors that were ever queued are, in order, those that ran, those
-- taken to run next, and those still queued: none runs twice, is lost or overtakes another.
pub functors_in_order :
    {s : System} → Reach s → s.queued ≡ s.ran ++ (taken s.phase ++ s.loop.pending_functors)
functors_in_order r = (Reach-Inv r).order
