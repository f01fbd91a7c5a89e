-- ===== src/Thread/RwLock/Tests.antt =====
-- Short runs of threads on one RwLock.
use libcpp.Prelude.{◌≡◌, arith}
use libcpp.Thread.RwLock.{RwLock, init, read_lock, write_lock}
use libcpp.Thread.RwLock.Steps.{Reach, start, later, read_locks, write_locks, writer_alone}

-- Of two threads one writes, and the other waits to read.
abbrev written : RwLock
written = record (init 2) { writers = 1; writing = 1; read_waiters = 1; outside = 0 }

written-Reach : Reach 2 written
unfolding read_lock write_lock
written-Reach = later (later start (write_locks (omega arith))) (read_locks (omega arith))

writer_alone_example : (written.writing ≡ 1) × (written.reading ≡ 0)
writer_alone_example = writer_alone (omega arith) written-Reach (omega arith)
