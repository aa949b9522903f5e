-- ===== src/Tests.antt =====
-- Tests of the definitions at concrete inputs, and the theorems at inputs where they apply.
mod Error
mod Io
mod SocketAddress
mod AccessRegisters
mod ListRegisters
mod Relay
mod Codec
mod Pipe
mod Routers
mod SocketServer
mod SocketClient
mod FileProvider
mod FileServerClient
mod ExecCmd
mod NodeClients
mod NodeRegistry
mod RelayClients
