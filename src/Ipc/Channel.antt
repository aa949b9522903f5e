-- ===== src/Ipc/Channel.antt =====
-- src/common/ipc/channel.hpp: the typed end of a gateway. A channel serializes what it sends in front
-- of a buffer that the caller may add, and its adapter reads what the gateway hears. The generated
-- serializers of the channel's messages are a parameter.
pub mod Delivery
use ocvsmd.Common.{ℕ, ◌≡◌, ◌++◌, Bool, Option, none, some, List}
use ocvsmd.Error.{OptError, error, invalid_argument}
use ocvsmd.Io.SocketBuffer.{Payload, SocketBuffer, prepend}
use ocvsmd.Ipc.Gateway
use ocvsmd.Ipc.ClientRouter
use ocvsmd.Ipc.ClientRouter.{ClientRouter}

-- The generated code of one type of messages.
pub record MsgCodec {ℓ} (A : Type ℓ) : Type ℓ where
  pub serialize : A → Option (List ℕ)
  pub deserialize : List ℕ → Option A

-- What the generated code documents, as for the routes.
pub record IsReadBack {ℓ} {A : Type ℓ} (c : MsgCodec A) : Type ℓ where
  pub reads_back :
      (a : A) (bs rest : List ℕ) → c.serialize a ≡ some bs → c.deserialize (bs ++ rest) ≡ some a

-- `Channel::EventVar` with the payload that comes with it.
pub data Event {ℓ} (A : Type ℓ) : Type ℓ where
  connected : Event A
  input : A → Payload → Event A
  completed : OptError → Bool → Event A

module _ {ℓ} {A : Type ℓ} (codec : MsgCodec A) where
  -- `Channel::send`, of a channel at the client.
  unfoldable pub channel_send :
      ClientRouter.Env
      → ℕ
      → ClientRouter.Gateway
      → ℕ
      → A
      → SocketBuffer
      → ClientRouter
      → OptError × ClientRouter
  channel_send env tag g service_id output sock_buff r = elim (codec.serialize output) [
    | none ↦ (some (error invalid_argument), r)
    | some bs ↦ ClientRouter.gateway_send env tag g service_id (prepend bs sock_buff) r
  ]

  abbrev pub read_input : Option A → Payload → OptError × Option (Event A)
  read_input none payload = (some (error invalid_argument), none)
  read_input (some a) payload = (none, some (input a payload))

  -- `Channel::Adapter`: its result, and the event that the channel's handler is called with, if it is.
  unfoldable pub adapt : Gateway.Event → OptError × Option (Event A)
  adapt Gateway.connected = (none, some connected)
  adapt (Gateway.message sequence payload) = read_input (codec.deserialize payload) payload
  adapt (Gateway.completed opt_error keep_alive) = (none, some (completed opt_error keep_alive))
