-- ===== src/Thread/CountDownLatch.antt =====
-- src/thread/CountDownLatch.h. Each call is what it does while it holds the mutex, as in Thread/RwLock.
-- `count_` is `count - counted`, which is below 0 after more calls of countDown than `count`.
use libcpp.Prelude.{ℕ, ◌+◌, ◌-◌, ◌≤◌, ◌<◌, ◌≡◌, ◌⊎◌, arith, ltb, ◌==◌, if◌then◌else◌}

-- `waiting` threads are in `wait`; those of them that were notified test the loop again. `passed` is the
-- number of calls of `wait` that returned.
pub record CountDownLatch : Type 0 where
  pub count : ℕ
  pub counted : ℕ
  pub waiting : ℕ
  pub notified : ℕ
  pub passed : ℕ

-- The constructor.
abbrev pub init : ℕ → CountDownLatch
init count = record { count = count; counted = 0; waiting = 0; notified = 0; passed = 0 }

unfoldable pub wait : CountDownLatch → CountDownLatch
wait l =
    if ltb l.counted l.count
    then record l { waiting = l.waiting + 1 }
    else record l { passed = l.passed + 1 }

-- A notified thread tests the loop of `wait`.
unfoldable pub wait_again : CountDownLatch → CountDownLatch
wait_again l =
    if ltb l.counted l.count
    then record l { notified = l.notified - 1 }
    else record l { notified = l.notified - 1; waiting = l.waiting - 1; passed = l.passed + 1 }

unfoldable pub count_down : CountDownLatch → CountDownLatch
count_down l =
    let l' = record l { counted = l.counted + 1 } in
    if l'.counted == l.count then record l' { notified = l.waiting } else l'

-- Any number of threads.
pub data Step (l : CountDownLatch) : CountDownLatch → Type 0 where
  waits : Step l (wait l)
  waits_again : 0 < l.notified → Step l (wait_again l)
  counts_down : Step l (count_down l)

pub data Reach (count : ℕ) : CountDownLatch → Type 0 where
  start : Reach count (init count)
  later : {l m : CountDownLatch} → Reach count l → Step l m → Reach count m

record Inv (count : ℕ) (l : CountDownLatch) : Type 0 where
  same : l.count ≡ count
  some_waiting : l.notified ≤ l.waiting
  closed : (l.passed ≡ 0) ⊎ (l.count ≤ l.counted)
  opens : (l.counted < l.count) ⊎ (l.notified ≡ l.waiting)

Step-Inv : {count : ℕ} {l m : CountDownLatch} → Step l m → Inv count l → Inv count m
unfolding wait wait_again count_down
Step-Inv {l = l} waits v = ground (arith, v)
Step-Inv {l = l} (waits_again h) v = ground (arith, v)
Step-Inv {l = l} counts_down v = ground (arith, v)

Reach-Inv : {count : ℕ} {l : CountDownLatch} → Reach count l → Inv count l
Reach-Inv start = ground arith
Reach-Inv (later r s) = Step-Inv s (Reach-Inv r)

-- In every reachable state: no call of `wait` has returned unless countDown was called `count` times;
-- and if it was, all threads that wait were notified.
pub latch_lem :
    {count : ℕ} {l : CountDownLatch}
    → Reach count l
    → (0 < l.passed → count ≤ l.counted) × (count ≤ l.counted → l.notified ≡ l.waiting)
latch_lem {count} {l} r = (λ h. ground (arith, Reach-Inv r, h), λ h. ground (arith, Reach-Inv r, h))
