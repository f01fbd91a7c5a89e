-- ===== src/App.antt =====
-- The chat application of app/him.
pub mod HimServer
pub mod HimClient
mod Tests
