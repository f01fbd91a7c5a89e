-- ===== src/Thread/Semaphore.antt =====
-- src/thread/Semaphore.h. Each call is what it does while it holds the mutex, as in Thread/RwLock. `wait`
-- is taken as if it gave its lock to the condition variable; it gives the mutex, which does not compile.
-- `count_` is the 32-bit word of the int, so that a negative first count is one of 2^31 or more.
use libcpp.Prelude.{
  ℕ, ◌+◌, ◌-◌, ◌%◌, ◌^◌, ◌≤◌, ◌<◌, ◌≡◌, ◌⊎◌, refl, Bool, true, false, arith, ltb, ◌==◌,
  if◌then◌else◌,
}

-- `taken` is the number of calls of `wait` that returned and of `try_wait` that gave true, and `posted`
-- that of calls of `notify`. `waiting` threads are in `wait`, `notified` of them test the loop again.
pub record Semaphore : Type 0 where
  pub count : ℕ
  pub waiting : ℕ
  pub notified : ℕ
  pub taken : ℕ
  pub posted : ℕ

-- `--` and `++` of `count_`; where the int overflows, which C++ leaves undefined, the word wraps.
abbrev dec : ℕ → ℕ
dec n = (n + (2 ^ 32 - 1)) % 2 ^ 32

abbrev inc : ℕ → ℕ
inc n = (n + 1) % 2 ^ 32

-- The constructor.
abbrev pub init : ℕ → Semaphore
init count = record { count = count; waiting = 0; notified = 0; taken = 0; posted = 0 }

unfoldable pub wait : Semaphore → Semaphore
wait s =
    if s.count == 0
    then record s { waiting = s.waiting + 1 }
    else record s { count = dec s.count; taken = s.taken + 1 }

-- A notified thread tests the loop of `wait`.
unfoldable pub wait_again : Semaphore → Semaphore
wait_again s = if s.count == 0 then record s { notified = s.notified - 1 } else record s {
  count = dec s.count;
  taken = s.taken + 1;
  waiting = s.waiting - 1;
  notified = s.notified - 1;
}

unfoldable pub notify : Semaphore → Semaphore
notify s =
    let s' = record s { count = inc s.count; posted = s.posted + 1 } in
    if ltb s.notified s.waiting then record s' { notified = s.notified + 1 } else s'

unfoldable pub try_wait : Semaphore → Bool × Semaphore
try_wait s =
    if s.count == 0
    then (false, s)
    else (true, record s { count = dec s.count; taken = s.taken + 1 })

-- Any number of threads.
pub data Step (s : Semaphore) : Semaphore → Type 0 where
  waits : Step s (wait s)
  waits_again : 0 < s.notified → Step s (wait_again s)
  notifies : Step s (notify s)
  tries : Step s (try_wait s).1

pub data Reach (count : ℕ) : Semaphore → Type 0 where
  start : Reach count (init count)
  later : {s t : Semaphore} → Reach count s → Step s t → Reach count t

record Inv (count : ℕ) (s : Semaphore) : Type 0 where
  balance : s.count + s.taken ≡ count + s.posted
  some_waiting : s.notified ≤ s.waiting
  woken : (s.notified ≡ s.waiting) ⊎ (s.count ≤ s.notified)

-- While the int does not overflow.
Step-Inv :
    {count : ℕ} {s t : Semaphore} → Step s t → count + t.posted < 2 ^ 31 → Inv count s → Inv count t
unfolding wait wait_again notify try_wait
Step-Inv {s = s} waits b v = ground (arith, v)
Step-Inv {s = s} (waits_again h) b v = ground (arith, v)
Step-Inv {s = s} notifies b v = ground (arith, v)
Step-Inv {s = s} tries b v = ground (arith, v)

posted_mono : {s t : Semaphore} → Step s t → s.posted ≤ t.posted
unfolding wait wait_again notify try_wait
posted_mono {s} waits = ground arith
posted_mono {s} (waits_again h) = ground arith
posted_mono {s} notifies = ground arith
posted_mono {s} tries = ground arith

Reach-Inv : {count : ℕ} {s : Semaphore} → Reach count s → count + s.posted < 2 ^ 31 → Inv count s
Reach-Inv start b = ground arith
Reach-Inv (later r s) b = Step-Inv s b (Reach-Inv r (omega (arith, posted_mono s)))

-- With `wait` as if it gave its lock to the condition variable, for a first count that is not negative, and
-- while it and the calls of `notify` together do not overflow the int: no more was taken than the first count and the calls of `notify` gave, and what is left is
-- `count_`; and if some is left while threads wait, one of them was notified.
pub semaphore_lem :
    {count : ℕ} {s : Semaphore}
    → Reach count s
    → count + s.posted < 2 ^ 31
    → (s.count + s.taken ≡ count + s.posted) × (0 < s.count → 0 < s.waiting → 0 < s.notified)
semaphore_lem {count} {s} r b =
    let v = Reach-Inv r b in (ground (arith, v), λ h k. ground (arith, v, h, k))

-- On any first count `wait` goes ahead unless the count is 0, also on a negative one.
below_zero : wait (init (2 ^ 32 - 1)) ≡ record (init (2 ^ 32 - 2)) { taken = 1 }
unfolding wait
below_zero = refl
