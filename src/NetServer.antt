-- ===== src/NetServer.antt =====
-- cpplibrary/netserver: the buffers of a connection, their pools, and the event handler.
pub mod Buffer
pub mod EventHandler
pub mod EventLoop
pub mod TcpServer
mod Tests
