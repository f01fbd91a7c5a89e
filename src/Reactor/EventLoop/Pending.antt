-- ===== src/Reactor/EventLoop/Pending.antt =====
-- `EventLoop::doPendingFunctors` when the functors queue more.
use libcpp.Prelude.{
  ℕ, ◌+◌, ◌≡◌, refl, ap, sym, ◌∙◌, true, false, List, [], ◌∷◌, ◌++◌, arith, append-nil,
  append_assoc, length, length-append,
}
use libcpp.Reactor.EventLoop.{
  EventLoop, queue_in_loop, queue_all, run_all, take_pending, do_pending_functors,
}

-- All that the functors `fs` queue.
abbrev pub queued_by : (ℕ → List ℕ) → List ℕ → List ℕ
queued_by calls [] = []
queued_by calls (f ∷ fs) = calls f ++ queued_by calls fs

-- `l'` is `l` with `fs` queued from the loop's thread, each with a wakeup.
record Queued (fs : List ℕ) (l l' : EventLoop) : Type 0 where
  pub doing : l'.doing_pending_functors ≡ true
  pub pending : l'.pending_functors ≡ l.pending_functors ++ fs
  pub woken : l'.wakeups ≡ l.wakeups + length fs
  pub quitting : l'.quit_flag ≡ l.quit_flag

Queued-none : (l : EventLoop) → l.doing_pending_functors ≡ true → Queued [] l l
Queued-none l h = record {
  doing = h;
  pending = sym (append-nil l.pending_functors);
  woken = omega arith;
  quitting = refl;
}

Queued-append :
    {xs ys : List ℕ} {l m n : EventLoop} → Queued xs l m → Queued ys m n → Queued (xs ++ ys) l n
Queued-append {xs} {ys} {l} a b = record {
  doing = b.doing;
  pending = b.pending ∙ ap (λ zs. zs ++ ys) a.pending ∙ append_assoc l.pending_functors xs ys;
  woken = omega (arith, a.woken, b.woken, length-append xs ys);
  quitting = b.quitting ∙ a.quitting;
}

queue_in_loop-Queued :
    (f : ℕ) (l : EventLoop)
    → l.doing_pending_functors ≡ true
    → Queued (f ∷ []) l (queue_in_loop true f l)
unfolding queue_in_loop
queue_in_loop-Queued f l h = ground arith

queue_all-Queued :
    (fs : List ℕ) (l : EventLoop) → l.doing_pending_functors ≡ true → Queued fs l (queue_all fs l)
unfolding queue_all
queue_all-Queued [] l h = Queued-none l h
queue_all-Queued (f ∷ fs) l h =
    let first = queue_in_loop-Queued f l h in
    Queued-append first (queue_all-Queued fs (queue_in_loop true f l) first.doing)

run_all-Queued :
    (calls : ℕ → List ℕ) (fs : List ℕ) (l : EventLoop)
    → l.doing_pending_functors ≡ true
    → Queued (queued_by calls fs) l (run_all calls fs l)
unfolding run_all
run_all-Queued calls [] l h = Queued-none l h
run_all-Queued calls (f ∷ fs) l h =
    let first = queue_all-Queued (calls f) l h in
    Queued-append first (run_all-Queued calls fs (queue_all (calls f) l) first.doing)

-- A round runs the functors that were queued when it began, once each and in order. What they
-- queue is left for the next round, with one wakeup for each, so that the next `poll` does not wait.
pub do_pending_functors_lem :
    (calls : ℕ → List ℕ) (l : EventLoop)
    → let (functors, l') = do_pending_functors calls l in
      (functors ≡ l.pending_functors)
      × (l'.pending_functors ≡ queued_by calls l.pending_functors)
      × (l'.wakeups ≡ l.wakeups + length (queued_by calls l.pending_functors))
      × (l'.doing_pending_functors ≡ false)
unfolding do_pending_functors take_pending
do_pending_functors_lem calls l =
    ground (arith, run_all-Queued calls l.pending_functors (take_pending l).1)
