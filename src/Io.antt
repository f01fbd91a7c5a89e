-- ===== src/Io.antt =====
-- src/io: buffers of bytes.
pub mod Buffer
pub mod FixedBuffer
