-- ===== src/Io.antt =====
-- src/common/io and include/ocvsmd/platform/posix_utils.hpp.
pub mod SocketBuffer
pub mod Posix
pub mod Text
pub mod SocketAddress
