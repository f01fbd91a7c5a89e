-- ===== src/Thread/ThreadPool.antt =====
-- src/thread/ThreadPool.h. What a worker or a caller does while it holds the mutex is one step; a task is
-- a number. `enqueue` notifies no worker, and its test of `stop` makes an exception but does not
-- throw it.
use libcpp.Prelude.{
  ℕ, Bool-cases, inl, inr, ◌+◌, ◌-◌, ◌≤◌, ◌<◌, ◌≡◌, refl, ◌∙◌, ap, sym, Bool, true, false, List, [],
  ◌∷◌, ◌++◌, append-nil, append_assoc, arith, if◌then◌else◌,
}

-- Workers are at the wait (`arriving`: they test its predicate next), in it, notified in it, running a
-- task, or gone. `added` has all tasks that were enqueued, `begun` those that were taken, in order.
pub record ThreadPool : Type 0 where
  pub stopped : Bool
  pub tasks : List ℕ
  pub arriving : ℕ
  pub waiting : ℕ
  pub notified : ℕ
  pub running : ℕ
  pub gone : ℕ
  pub added : List ℕ
  pub begun : List ℕ

abbrev pub init : ℕ → ThreadPool
init thread_num = record {
  stopped = false;
  tasks = [];
  arriving = thread_num;
  waiting = 0;
  notified = 0;
  running = 0;
  gone = 0;
  added = [];
  begun = [];
}

abbrev pub take_task : List ℕ → ThreadPool → ThreadPool
take_task [] p =
    if p.stopped then record p { gone = p.gone + 1 } else record p { waiting = p.waiting + 1 }
take_task (t ∷ ts) p = record p { tasks = ts; running = p.running + 1; begun = p.begun ++ (t ∷ []) }

-- The body of a worker's loop up to its task: the wait lets it through if the pool was stopped or has
-- tasks.
unfoldable pub work : ThreadPool → ThreadPool
work p = take_task p.tasks (record p { arriving = p.arriving - 1 })

-- A notified worker tests the predicate of the wait.
unfoldable pub work_again : ThreadPool → ThreadPool
work_again p = take_task p.tasks (record p { notified = p.notified - 1; waiting = p.waiting - 1 })

-- `task()` returns.
unfoldable pub end_task : ThreadPool → ThreadPool
end_task p = record p { running = p.running - 1; arriving = p.arriving + 1 }

unfoldable pub enqueue : ℕ → ThreadPool → ThreadPool
enqueue task p = record p { tasks = p.tasks ++ (task ∷ []); added = p.added ++ (task ∷ []) }

-- `stop` up to its joins.
unfoldable pub stop : ThreadPool → ThreadPool
stop p = record p { stopped = true; notified = p.waiting }

pub data Step (p : ThreadPool) : ThreadPool → Type 0 where
  works : 0 < p.arriving → Step p (work p)
  works_again : 0 < p.notified → Step p (work_again p)
  ends_task : 0 < p.running → Step p (end_task p)
  enqueues : (task : ℕ) → Step p (enqueue task p)
  stops : Step p (stop p)

pub data Reach (thread_num : ℕ) : ThreadPool → Type 0 where
  start : Reach thread_num (init thread_num)
  later : {p q : ThreadPool} → Reach thread_num p → Step p q → Reach thread_num q

record Inv (thread_num : ℕ) (p : ThreadPool) : Type 0 where
  in_order : p.begun ++ p.tasks ≡ p.added
  workers : p.arriving + p.waiting + p.running + p.gone ≡ thread_num
  some_waiting : p.notified ≤ p.waiting
  asleep : p.stopped ≡ false → p.notified ≡ 0
  stay : p.stopped ≡ false → p.gone ≡ 0
  woken : p.stopped ≡ true → p.notified ≡ p.waiting

taken-Inv :
    (thread_num : ℕ) (ts : List ℕ) (p : ThreadPool)
    → p.tasks ≡ ts
    → p.begun ++ ts ≡ p.added
    → p.arriving + p.waiting + p.running + p.gone + 1 ≡ thread_num
    → p.notified ≤ p.waiting
    → (p.stopped ≡ false → p.notified ≡ 0)
    → (p.stopped ≡ false → p.gone ≡ 0)
    → (p.stopped ≡ true → p.notified ≡ p.waiting)
    → Inv thread_num (take_task ts p)
taken-Inv n [] p e order count low asleep stay woken = elim (Bool-cases p.stopped) [
  | inl s ↦ rw s record {
    in_order = ap (λ x. p.begun ++ x) e ∙ order;
    workers = omega arith;
    some_waiting = low;
    asleep = λ f. cc;
    stay = λ f. cc;
    woken = λ t. woken s;
  }
  | inr s ↦ rw s record {
    in_order = ap (λ x. p.begun ++ x) e ∙ order;
    workers = omega arith;
    some_waiting = omega arith;
    asleep = λ f. asleep s;
    stay = λ f. stay s;
    woken = λ t. cc;
  }
]
taken-Inv n (t ∷ ts) p e order count low asleep stay woken = record {
  in_order = append_assoc p.begun (t ∷ []) ts ∙ order;
  workers = omega arith;
  some_waiting = low;
  asleep = asleep;
  stay = stay;
  woken = woken;
}

Step-Inv : {thread_num : ℕ} {p q : ThreadPool} → Step p q → Inv thread_num p → Inv thread_num q
unfolding work work_again end_task enqueue stop
Step-Inv {p = p} (works h) v =
    taken-Inv _ p.tasks (record p { arriving = p.arriving - 1 }) refl v.in_order
      (omega (arith, v.workers, h)) v.some_waiting v.asleep v.stay v.woken
Step-Inv {p = p} (works_again h) v =
    taken-Inv _ p.tasks (record p { notified = p.notified - 1; waiting = p.waiting - 1 }) refl
      v.in_order (omega (arith, v.workers, h, v.some_waiting)) (omega (arith, v.some_waiting))
      (λ s. omega (arith, v.asleep s)) v.stay (λ s. omega (arith, v.woken s))
Step-Inv {p = p} (ends_task h) v = record {
  in_order = v.in_order;
  workers = omega (arith, v.workers, h);
  some_waiting = v.some_waiting;
  asleep = v.asleep;
  stay = v.stay;
  woken = v.woken;
}
Step-Inv {p = p} (enqueues task) v = record {
  in_order = sym (append_assoc p.begun p.tasks (task ∷ [])) ∙ ap (λ x. x ++ (task ∷ [])) v.in_order;
  workers = v.workers;
  some_waiting = v.some_waiting;
  asleep = v.asleep;
  stay = v.stay;
  woken = v.woken;
}
Step-Inv {p = p} stops v = record {
  in_order = v.in_order;
  workers = v.workers;
  some_waiting = omega arith;
  asleep = λ s. cc;
  stay = λ s. cc;
  woken = λ s. refl;
}

Reach-Inv : {thread_num : ℕ} {p : ThreadPool} → Reach thread_num p → Inv thread_num p
Reach-Inv start = record {
  in_order = refl;
  workers = omega arith;
  some_waiting = omega arith;
  asleep = λ s. refl;
  stay = λ s. refl;
  woken = λ s. cc;
}
Reach-Inv (later r s) = Step-Inv s (Reach-Inv r)

-- In every reachable state the tasks that were begun, and then those in the queue, are those that were
-- enqueued, in this order; no worker is lost, and none is gone before `stop`; and after `stop` all that
-- wait were notified.
pub pool_lem :
    {thread_num : ℕ} {p : ThreadPool}
    → Reach thread_num p
    → (p.begun ++ p.tasks ≡ p.added)
      × (p.arriving + p.waiting + p.running + p.gone ≡ thread_num)
      × (p.stopped ≡ false → p.gone ≡ 0)
      × (p.stopped ≡ true → p.notified ≡ p.waiting)
pool_lem r = let v = Reach-Inv r in (v.in_order, v.workers, v.stay, v.woken)

abbrev pub enqueue_all : List ℕ → ThreadPool → ThreadPool
enqueue_all [] p = p
enqueue_all (t ∷ ts) p = enqueue_all ts (enqueue t p)

-- Before `stop`, once all workers of a pool wait, no number of tasks that are enqueued wakes one
-- of them: all tasks stay in the queue, and no worker was notified, is about to test for tasks, or
-- runs one.
pub pool_sleeps :
    {thread_num : ℕ} {p : ThreadPool} (ts : List ℕ)
    → Reach thread_num p
    → p.stopped ≡ false
    → p.waiting ≡ thread_num
    → let q = enqueue_all ts p in
      (q.tasks ≡ p.tasks ++ ts) × (q.notified ≡ 0) × (q.arriving ≡ 0) × (q.running ≡ 0)
unfolding enqueue
pool_sleeps {p = p} [] r s w =
    let v = Reach-Inv r in
    (sym (append-nil p.tasks), v.asleep s, omega (arith, v.workers, w), omega (arith, v.workers, w))
pool_sleeps {p = p} (t ∷ ts) r s w =
    let (e, asleep, arrived, ran) = pool_sleeps ts (later r (enqueues t)) s w in
    (e ∙ append_assoc p.tasks (t ∷ []) ts, asleep, arrived, ran)
