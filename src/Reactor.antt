-- ===== src/Reactor.antt =====
-- src/reactor: channels, the poller over epoll, the event loop and the group of loops.
pub mod Channel
pub mod EPoller
pub mod Poller
pub mod EventLoop
pub mod EventLoopGroup
mod Tests
