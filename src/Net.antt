-- ===== src/Net.antt =====
-- src/net: TCP connections.
pub mod Socket
pub mod Acceptor
pub mod Connector
pub mod TcpClient
pub mod TcpConnection
pub mod TcpServer
pub mod Udp
mod Tests
