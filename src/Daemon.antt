-- ===== src/Daemon.antt =====
-- src/daemon/engine: the Cyphal side and the IPC services.
pub mod FileProvider
pub mod ExecCmd
pub mod FileServer
pub mod CyError
pub mod AccessRegisters
pub mod ListRegisters
pub mod Relay
pub mod Sessions
