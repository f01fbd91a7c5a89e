-- ===== src/Datetime.antt =====
-- src/datetime: timers and the queue that runs them.
pub mod TimeStamp
pub mod PairSet
pub mod Timer
pub mod TimerQueue
pub mod TimerWheel
mod Tests
