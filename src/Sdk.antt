-- ===== src/Sdk.antt =====
-- src/sdk: the clients of the daemon's services.
pub mod NodeClient
pub mod ExecCmdClient
pub mod ListRegistersClient
pub mod AccessRegistersClient
pub mod Relay
pub mod FileServerClient
pub mod NodeRegistryClient
pub mod NodeCommandClient
