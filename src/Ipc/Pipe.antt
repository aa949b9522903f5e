-- ===== src/Ipc/Pipe.antt =====
-- src/common/ipc/pipe
pub mod SocketBase
pub mod SocketServer
pub mod SocketClient
