-- ===== src/Sdk/Relay/RawSubscriberClient.antt =====
-- `SubscriberImpl` of src/sdk/svc/relay/raw_subscriber_client.cpp.
pub mod Subscription
use ocvsmd.Common.{ℕ, Option, none, some, List, [], ◌∷◌}
use ocvsmd.Error.{Error, OptError}
use ocvsmd.Io.SocketBuffer.{Payload}
use ocvsmd.Ipc.Route.{real_payload}
use ocvsmd.Daemon.Relay.RawSubscriber.{Receive}
use ocvsmd.Sdk.Relay.{Receivers, answer_at_once, keep_receiver, notify_received, end_receivers}

-- `RawReceive::Result`
pub data Received : Type 0 where
  failure : Error → Received
  success : (payload : Payload) (priority : ℕ) (publisher_node_id : Option ℕ) → Received

-- `Spec::Response` without its bytes.
pub data Response : Type 0 where
  empty : Response
  receive : Receive → Response

abbrev pub Subscriber : Type 0
Subscriber = Receivers Received

abbrev pub submit_by : OptError → Subscriber → Subscriber
submit_by none s = keep_receiver s
submit_by (some e) s = answer_at_once (failure e) s

unfoldable pub submit : Subscriber → Subscriber
submit s = submit_by s.completion_error s

abbrev pub front : List ℕ → Option ℕ
front [] = none
front (n ∷ more) = some n

-- `none` is a claim of more bytes than came, undefined behaviour in the code.
abbrev pub received_of : Receive → Option Payload → Subscriber → Option Subscriber
received_of r none s = none
received_of r (some bytes) s =
    some (notify_received (success bytes r.priority (front r.remote_node_id)) s)

-- `handleEvent(Input)`
unfoldable pub handle_input : Response → Payload → Subscriber → Option Subscriber
unfolding notify_received
handle_input empty payload s = some s
handle_input (receive r) payload s = received_of r (real_payload payload r.payload_size) s

-- `handleEvent(Completed)`
unfoldable pub handle_completed : OptError → Subscriber → Subscriber
unfolding end_receivers
handle_completed opt_error s = end_receivers failure opt_error s
