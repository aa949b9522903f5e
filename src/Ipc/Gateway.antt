-- ===== src/Ipc/Gateway.antt =====
-- src/common/ipc/gateway.hpp: the events that a router gives to the gateway of a channel.
use ocvsmd.Common.{ℕ, Bool}
use ocvsmd.Error.{OptError}
use ocvsmd.Io.SocketBuffer.{Payload}

pub data Event : Type 0 where
  connected : Event
  message : ℕ → Payload → Event
  completed : OptError → Bool → Event
