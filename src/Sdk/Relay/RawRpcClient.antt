-- ===== src/Sdk/Relay/RawRpcClient.antt =====
-- `NodeRpcClientImpl` of src/sdk/svc/relay/raw_rpc_client.cpp.
use ocvsmd.Common.{ℕ, Option, none, some, List, [], ◌∷◌, ◌++◌, length}
use ocvsmd.Common.Int.{ℤ}
use ocvsmd.Error.{Error, OptError, DsdlError, error, other, dsdl_error_to_opt_error}
use ocvsmd.Io.SocketBuffer.{Payload}
use ocvsmd.Ipc.Route.{real_payload}
use ocvsmd.Daemon.Relay.RawRpcClient.{Request, config, call, Receive}
use ocvsmd.Sdk.NodeClient.{to_u64}
use ocvsmd.Sdk.Relay.{
  Receivers, no_receiver, answer_at_once, keep_receiver, notify_received, end_receivers,
}

-- `RawCall::Result`
pub data Received : Type 0 where
  failure : Error → Received
  success : (payload : Payload) (priority server_node_id : ℕ) → Received

-- `Spec::Response` without its bytes.
pub data Response : Type 0 where
  empty : Response
  receive : Receive → Response
  failed : DsdlError → Response

-- A request that went out, and the raw bytes behind it.
pub record Sent : Type 0 where
  pub request : Request
  pub payload : Payload

-- `requested_` is the two timeouts and `payload`; `sent` is a history, oldest first.
pub record NodeClient : Type 0 where
  pub receivers : Receivers Received
  pub request_timeout_us : ℕ
  pub response_timeout_us : ℕ
  pub payload : Payload
  pub sent : List Sent

abbrev pub make : NodeClient
make = record {
  receivers = no_receiver;
  request_timeout_us = 0;
  response_timeout_us = 0;
  payload = [];
  sent = [];
}

-- `rawCall`, which waits for its submission.
unfoldable pub raw_call : Payload → ℤ → ℤ → NodeClient → NodeClient
raw_call raw_request_payload request_timeout response_timeout c = record c {
  payload = raw_request_payload;
  request_timeout_us = to_u64 request_timeout;
  response_timeout_us = to_u64 response_timeout;
}

-- What `channel_.send` gives.
abbrev pub Send : Type 0
Send = Sent → OptError

abbrev pub submitted : OptError → Sent → NodeClient → NodeClient
submitted none message c = record c {
  receivers = keep_receiver c.receivers;
  payload = [];
  sent = c.sent ++ message ∷ [];
}
submitted (some e) message c = record c {
  receivers = answer_at_once (failure e) c.receivers;
  payload = [];
}

abbrev pub submit_by : OptError → Send → NodeClient → NodeClient
submit_by none send c =
    let message : Sent = record {
      request = call c.request_timeout_us c.response_timeout_us (length c.payload);
      payload = c.payload;
    } in
    submitted (send message) message c
submit_by (some e) send c = record c { receivers = answer_at_once (failure e) c.receivers }

unfoldable pub submit : Send → NodeClient → NodeClient
submit send c = submit_by c.receivers.completion_error send c

abbrev pub priority_sent : OptError → Sent → NodeClient → OptError × NodeClient
priority_sent none message c = (none, record c { sent = c.sent ++ message ∷ [] })
priority_sent (some e) message c = (some e, c)

abbrev pub set_priority_by : OptError → Send → ℕ → NodeClient → OptError × NodeClient
set_priority_by none send priority c =
    let message : Sent = record { request = config (priority ∷ []); payload = [] } in
    priority_sent (send message) message c
set_priority_by (some e) send priority c = (some e, c)

unfoldable pub set_priority : Send → ℕ → NodeClient → OptError × NodeClient
set_priority send priority c = set_priority_by c.receivers.completion_error send priority c

-- `none` is a claim of more bytes than came, undefined behaviour in the code.
abbrev pub received_of : Receive → Option Payload → NodeClient → Option NodeClient
received_of r none c = none
received_of r (some bytes) c = some (record c {
  receivers = notify_received (success bytes r.priority r.remote_node_id) c.receivers;
})

abbrev pub error_of : OptError → Error
error_of none = error other
error_of (some e) = e

-- `handleEvent(Input)`
unfoldable pub handle_input : Response → Payload → NodeClient → Option NodeClient
unfolding notify_received dsdl_error_to_opt_error
handle_input empty payload c = some c
handle_input (receive r) payload c = received_of r (real_payload payload r.payload_size) c
handle_input (failed e) payload c = some (record c {
  receivers = notify_received (failure (error_of (dsdl_error_to_opt_error e))) c.receivers;
})

-- `handleEvent(Completed)`
unfoldable pub handle_completed : OptError → NodeClient → NodeClient
unfolding end_receivers
handle_completed opt_error c = record c { receivers = end_receivers failure opt_error c.receivers }
