-- ===== src/Ipc.antt =====
-- src/common/ipc: the pipes and the routers.
pub mod Pipe
pub mod Gateway
pub mod Route
pub mod ClientRouter
pub mod ServerRouter
pub mod Transit
pub mod Channel
