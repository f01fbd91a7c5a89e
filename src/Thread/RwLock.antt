-- ===== src/Thread/RwLock.antt =====
-- src/thread/RwLock.h. Each call is what it does while it holds the mutex: it ends, or the thread waits
-- on a condition variable. A waiting thread that was notified tries again later, at any time.
pub mod Steps
mod Tests
use libcpp.Prelude.{ℕ, ◌+◌, ◌-◌, ◌%◌, ◌^◌, ltb, ◌||◌, if◌then◌else◌}

-- `++` and `--` of an `unsigned int`.
abbrev pub inc : ℕ → ℕ
inc n = (n + 1) % 2 ^ 32

abbrev pub dec : ℕ → ℕ
dec n = (n + (2 ^ 32 - 1)) % 2 ^ 32

-- The counters of the class; of the threads that wait, the number that were notified and have not
-- tried again; and the threads that neither hold the lock nor wait, that read, and that write.
pub record RwLock : Type 0 where
  pub readers : ℕ
  pub read_waiters : ℕ
  pub writers : ℕ
  pub write_waiters : ℕ
  pub readers_notified : ℕ
  pub writers_notified : ℕ
  pub outside : ℕ
  pub reading : ℕ
  pub writing : ℕ

-- With all counters 0, and so many threads. (The class declares its constructor but does not define it.)
abbrev pub init : ℕ → RwLock
init threads = record {
  readers = 0;
  read_waiters = 0;
  writers = 0;
  write_waiters = 0;
  readers_notified = 0;
  writers_notified = 0;
  outside = threads;
  reading = 0;
  writing = 0;
}

-- `wcond_.notify_one()` and `rcond_.notify_all()`
unfoldable pub notify_one_writer : RwLock → RwLock
notify_one_writer l =
    if ltb l.writers_notified l.write_waiters
    then record l { writers_notified = l.writers_notified + 1 }
    else l

unfoldable pub notify_all_readers : RwLock → RwLock
notify_all_readers l = record l { readers_notified = l.read_waiters }

unfoldable pub read_lock : RwLock → RwLock
read_lock l =
    if ltb 0 l.writers || ltb 0 l.write_waiters
    then record l { read_waiters = inc l.read_waiters; outside = l.outside - 1 }
    else record l { readers = inc l.readers; outside = l.outside - 1; reading = l.reading + 1 }

-- A notified reader tests the predicate of its `wait`.
unfoldable pub read_retry : RwLock → RwLock
read_retry l =
    if ltb 0 l.writers || ltb 0 l.write_waiters
    then record l { readers_notified = l.readers_notified - 1 }
    else record l {
      readers_notified = l.readers_notified - 1;
      read_waiters = dec l.read_waiters;
      readers = inc l.readers;
      reading = l.reading + 1;
    }

unfoldable pub read_unlock : RwLock → RwLock
unfolding notify_one_writer
read_unlock l =
    let l' = record l {
      readers = dec l.readers;
      reading = l.reading - 1;
      outside = l.outside + 1;
    } in
    if ltb 0 l.write_waiters then notify_one_writer l' else l'

unfoldable pub write_lock : RwLock → RwLock
write_lock l =
    if ltb 0 l.readers || ltb 0 l.writers
    then record l { write_waiters = inc l.write_waiters; outside = l.outside - 1 }
    else record l { writers = inc l.writers; outside = l.outside - 1; writing = l.writing + 1 }

unfoldable pub write_retry : RwLock → RwLock
write_retry l =
    if ltb 0 l.readers || ltb 0 l.writers
    then record l { writers_notified = l.writers_notified - 1 }
    else record l {
      writers_notified = l.writers_notified - 1;
      write_waiters = dec l.write_waiters;
      writers = inc l.writers;
      writing = l.writing + 1;
    }

unfoldable pub write_unlock : RwLock → RwLock
unfolding notify_one_writer notify_all_readers
write_unlock l =
    let l' = record l {
      writers = dec l.writers;
      writing = l.writing - 1;
      outside = l.outside + 1;
    } in
    if ltb 0 l.write_waiters then notify_one_writer l' else notify_all_readers l'
