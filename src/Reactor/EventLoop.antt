-- ===== src/Reactor/EventLoop.antt =====
-- src/reactor/EventLoop.h and src/reactor/EventLoop.cc: the queue of functors of a loop, and the
-- eventfd by which other threads wake it.
pub mod Threads
pub mod Pending
pub mod Timers
use libcpp.Prelude.{
  ℕ, zero, suc, ◌+◌, ◌<◌, ◌≡◌, refl, ap, sym, ◌∙◌, Bool, true, false, not, ◌||◌, Option, none, some,
  List, [], ◌∷◌, ◌++◌, arith, if◌then◌else◌, append-nil, append_assoc, ◌>>=◌, ◌>>◌, assert,
}
use mathlib.Core.List.{flat_map}

-- A functor is a number. `wakeups` is the counter of the eventfd.
pub record EventLoop : Type 0 where
  pub looping : Bool
  pub quit_flag : Bool
  pub doing_pending_functors : Bool
  pub pending_functors : List ℕ
  pub wakeups : ℕ

abbrev pub init : EventLoop
init = record {
  looping = false;
  quit_flag = false;
  doing_pending_functors = false;
  pending_functors = [];
  wakeups = 0;
}

-- `write` of 1 to the eventfd.
unfoldable pub wakeup : EventLoop → EventLoop
wakeup l = record l { wakeups = l.wakeups + 1 }

-- `read` of the eventfd: it sets the counter to 0.
unfoldable pub handle_wakeup : EventLoop → EventLoop
handle_wakeup l = record l { wakeups = 0 }

-- The locked part of `queueInLoop`.
unfoldable pub push : ℕ → EventLoop → EventLoop
push f l = record l { pending_functors = l.pending_functors ++ (f ∷ []) }

-- `in_loop` tells if the caller's thread is the loop's.
unfoldable pub queue_in_loop : Bool → ℕ → EventLoop → EventLoop
unfolding push wakeup
queue_in_loop in_loop f l =
    if not in_loop || l.doing_pending_functors then wakeup (push f l) else push f l

-- The functor that the call runs at once, if any.
pub run_in_loop : Bool → ℕ → EventLoop → Option ℕ × EventLoop
run_in_loop true f l = (some f, l)
run_in_loop false f l = (none, queue_in_loop false f l)

unfoldable pub quit : Bool → EventLoop → EventLoop
unfolding wakeup
quit in_loop l = let l' = record l { quit_flag = true } in if in_loop then l' else wakeup l'

-- The start of `loop()`.
pub start : Bool → EventLoop → Option EventLoop
start in_loop l = do
  assert (not l.looping)
  assert in_loop
  some (record l { looping = true; quit_flag = false })

-- The first half of `doPendingFunctors`: the functors to run, and an empty queue.
unfoldable pub take_pending : EventLoop → List ℕ × EventLoop
take_pending l =
    (l.pending_functors, record l { doing_pending_functors = true; pending_functors = [] })

-- `calls` are the functors that a functor queues while it runs, in the loop's thread.
queue_all : List ℕ → EventLoop → EventLoop
queue_all [] l = l
queue_all (f ∷ fs) l = queue_all fs (queue_in_loop true f l)

run_all : (ℕ → List ℕ) → List ℕ → EventLoop → EventLoop
run_all calls [] l = l
run_all calls (f ∷ fs) l = run_all calls fs (queue_all (calls f) l)

-- With the functors that it ran, in order.
pub do_pending_functors : (ℕ → List ℕ) → EventLoop → List ℕ × EventLoop
do_pending_functors calls l =
    let (functors, l') = take_pending l in
    (functors, record (run_all calls functors l') { doing_pending_functors = false })
