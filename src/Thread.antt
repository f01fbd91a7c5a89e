-- ===== src/Thread.antt =====
-- src/thread: locks.
pub mod SpinLock
pub mod RwLock
pub mod CountDownLatch
pub mod Semaphore
pub mod ThreadPool
mod Tests
