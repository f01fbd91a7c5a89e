-- ===== src/Thread/RwLock/Steps.antt =====
-- Any number of threads that use one RwLock: writers exclude all others, and no waiting thread is
-- forgotten.
use libcpp.Prelude.{ℕ, ◌^◌, ◌+◌, ◌≤◌, ◌<◌, ◌≡◌, ◌⊎◌, arith}
use libcpp.Thread.RwLock.{
  RwLock, init, notify_one_writer, notify_all_readers, read_lock, read_retry, read_unlock,
  write_lock, write_retry, write_unlock,
}

-- A thread locks when it neither holds the lock nor waits, unlocks what it has locked, and tries again only if it was notified.
pub data Step (l : RwLock) : RwLock → Type 0 where
  read_locks : 0 < l.outside → Step l (read_lock l)
  read_retries : 0 < l.readers_notified → Step l (read_retry l)
  read_unlocks : 0 < l.reading → Step l (read_unlock l)
  write_locks : 0 < l.outside → Step l (write_lock l)
  write_retries : 0 < l.writers_notified → Step l (write_retry l)
  write_unlocks : 0 < l.writing → Step l (write_unlock l)

pub data Reach (threads : ℕ) : RwLock → Type 0 where
  start : Reach threads (init threads)
  later : {l m : RwLock} → Reach threads l → Step l m → Reach threads m

record Inv (threads : ℕ) (l : RwLock) : Type 0 where
  all : l.outside + l.reading + l.writing + l.read_waiters + l.write_waiters ≡ threads
  reads : l.readers ≡ l.reading
  writes : l.writers ≡ l.writing
  one_writer : l.writers ≤ 1
  excluded : (l.writers ≡ 0) ⊎ (l.readers ≡ 0)
  some_readers : l.readers_notified ≤ l.read_waiters
  some_writers : l.writers_notified ≤ l.write_waiters
  writers_woken : (l.write_waiters ≡ 0) ⊎ (0 < l.readers + l.writers + l.writers_notified)
  readers_woken : (0 < l.writers + l.write_waiters) ⊎ (l.read_waiters ≡ l.readers_notified)

module _ {threads : ℕ} (few : threads < 2 ^ 32) where
  Step-Inv : {l m : RwLock} → Step l m → Inv threads l → Inv threads m
  unfolding read_lock read_retry read_unlock write_lock write_retry write_unlock notify_one_writer
      notify_all_readers
  Step-Inv {l} (read_locks h) v = ground (arith, v)
  Step-Inv {l} (read_retries h) v = ground (arith, v)
  Step-Inv {l} (read_unlocks h) v = ground (arith, v)
  Step-Inv {l} (write_locks h) v = ground (arith, v)
  Step-Inv {l} (write_retries h) v = ground (arith, v)
  Step-Inv {l} (write_unlocks h) v = ground (arith, v)

  Reach-Inv : {l : RwLock} → Reach threads l → Inv threads l
  Reach-Inv start = ground arith
  Reach-Inv (later r s) = Step-Inv s (Reach-Inv r)

  -- With fewer than 2^32 threads, and from counters that are all 0: in every reachable state in which a
  -- thread holds the lock for writing, it is the only one that does, and none holds it for reading.
  pub writer_alone :
      {l : RwLock} → Reach threads l → 0 < l.writing → (l.writing ≡ 1) × (l.reading ≡ 0)
  writer_alone r h = ground (arith, Reach-Inv r)

  -- With fewer than 2^32 threads: in every reachable state in which the lock is free and writers wait,
  -- one of them was notified.
  pub writer_notified :
      {l : RwLock}
      → Reach threads l
      → l.reading ≡ 0
      → l.writing ≡ 0
      → 0 < l.write_waiters
      → 0 < l.writers_notified
  writer_notified r h k w = ground (arith, Reach-Inv r)

  -- With fewer than 2^32 threads: in every reachable state in which no thread writes or waits to write,
  -- all waiting readers were notified.
  pub all_readers_notified :
      {l : RwLock}
      → Reach threads l
      → l.writing ≡ 0
      → l.write_waiters ≡ 0
      → l.readers_notified ≡ l.read_waiters
  all_readers_notified r h k = ground (arith, Reach-Inv r)
