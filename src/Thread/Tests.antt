-- ===== src/Thread/Tests.antt =====
-- Short runs of threads on a latch, a semaphore and a pool.
use libcpp.Prelude.{ℕ, ◌≢◌, refl, ◌+◌, ◌<◌, ◌≡◌, true, false, ◌++◌, arith}
use libcpp.Thread.CountDownLatch as Latch
use libcpp.Thread.Semaphore as Semaphore
use libcpp.Thread.ThreadPool as Pool
use libcpp.Thread.SpinLock as SpinLock

-- A thread waits for one other.
abbrev opened : Latch.CountDownLatch
opened = record (Latch.init 1) { counted = 1; waiting = 1; notified = 1 }

opened-Reach : Latch.Reach 1 opened
unfolding Latch.wait Latch.count_down
opened-Reach = Latch.later (Latch.later Latch.start Latch.waits) Latch.counts_down

-- A thread waits, and another notifies it.
abbrev posted : Semaphore.Semaphore
posted = record (Semaphore.init 0) { count = 1; waiting = 1; notified = 1; posted = 1 }

posted-Reach : Semaphore.Reach 0 posted
unfolding Semaphore.wait Semaphore.notify
posted-Reach = Semaphore.later (Semaphore.later Semaphore.start Semaphore.waits) Semaphore.notifies

semaphore_lem_example :
    (posted.count + posted.taken ≡ 0 + posted.posted)
    × (0 < posted.count → 0 < posted.waiting → 0 < posted.notified)
semaphore_lem_example = Semaphore.semaphore_lem posted-Reach (omega arith)

-- The only worker waits.
abbrev idle : Pool.ThreadPool
idle = record (Pool.init 1) { arriving = 0; waiting = 1 }

idle-Reach : Pool.Reach 1 idle
unfolding Pool.work
idle-Reach = Pool.later Pool.start (Pool.works (omega arith))

pool_lem_example :
    (idle.begun ++ idle.tasks ≡ idle.added)
    × (idle.arriving + idle.waiting + idle.running + idle.gone ≡ 1)
    × (idle.stopped ≡ false → idle.gone ≡ 0)
    × (idle.stopped ≡ true → idle.notified ≡ idle.waiting)
pool_lem_example = Pool.pool_lem idle-Reach

-- Thread 1 gets in, and thread 2 tries.
abbrev locked : SpinLock.SpinLock
locked = SpinLock.lock 1 (record SpinLock.init {
  places =
      SpinLock.becomes (SpinLock.becomes (λ t. SpinLock.outside) 1 SpinLock.spinning) 2
        SpinLock.spinning;
})

abbrev tried : SpinLock.SpinLock
tried = SpinLock.lock 2 locked

tried-Reach : SpinLock.Reach tried
unfolding SpinLock.lock
tried-Reach =
    SpinLock.later
      (SpinLock.later
        (SpinLock.later (SpinLock.later SpinLock.start (SpinLock.enters {t = 1} refl))
          (SpinLock.enters {t = 2} refl))
        (SpinLock.tries {t = 1} refl))
      (SpinLock.tries {t = 2} refl)

tried_runs :
    (tried.lck ≡ true) × (tried.places 1 ≡ SpinLock.inside) × (tried.places 2 ≡ SpinLock.spinning)
unfolding SpinLock.lock
tried_runs = (refl, refl, refl)

spin_lock_lem_example :
    ((t u : ℕ) → tried.places t ≡ SpinLock.inside → tried.places u ≡ SpinLock.inside → t ≡ u)
    × (((u : ℕ) → tried.places u ≢ SpinLock.inside)
        → (t : ℕ) → (SpinLock.lock t tried).places t ≡ SpinLock.inside)
spin_lock_lem_example = SpinLock.spin_lock_lem tried-Reach
