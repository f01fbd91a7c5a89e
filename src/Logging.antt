-- ===== src/Logging.antt =====
-- src/logging: the logger, and its back end.
pub mod Logger
pub mod AsyncLogging
pub mod LogFile
