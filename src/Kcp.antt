-- ===== src/Kcp.antt =====
-- src/kcp, above the protocol of src/kcp/ikcp.c.
pub mod KcpUtils
pub mod KcpLayer
pub mod KcpServer
