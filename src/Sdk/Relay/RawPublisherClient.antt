-- ===== src/Sdk/Relay/RawPublisherClient.antt =====
-- `PublisherImpl` of src/sdk/svc/relay/raw_publisher_client.cpp.
pub mod Publication
use ocvsmd.Common.{ℕ, Option, none, some, List, [], ◌∷◌, ◌++◌, length}
use ocvsmd.Common.Int.{ℤ}
use ocvsmd.Error.{Error, OptError, dsdl_error_to_opt_error}
use ocvsmd.Io.SocketBuffer.{Payload}
use ocvsmd.Daemon.Relay.RawPublisher.{Request, config, publish, Response, created, publish_error}
use ocvsmd.Sdk.NodeClient.{to_u64}
use ocvsmd.Sdk.Relay.{
  Receivers, no_receiver, answer_at_once, keep_receiver, notify_received, end_receivers,
}

-- A request that went out, and the raw bytes behind it.
pub record Sent : Type 0 where
  pub request : Request
  pub payload : Payload

-- `published_` is `timeout_us` and `payload`; `sent` is a history, oldest first.
pub record Publisher : Type 0 where
  pub receivers : Receivers OptError
  pub timeout_us : ℕ
  pub payload : Payload
  pub sent : List Sent

abbrev pub make : Publisher
make = record { receivers = no_receiver; timeout_us = 0; payload = []; sent = [] }

-- `rawPublish`, which waits for its submission.
unfoldable pub raw_publish : Payload → ℤ → Publisher → Publisher
raw_publish raw_payload timeout p = record p { payload = raw_payload; timeout_us = to_u64 timeout }

-- What `channel_.send` gives.
abbrev pub Send : Type 0
Send = Sent → OptError

abbrev pub submitted : OptError → Sent → Publisher → Publisher
submitted none message p = record p {
  receivers = keep_receiver p.receivers;
  payload = [];
  sent = p.sent ++ message ∷ [];
}
submitted (some e) message p = record p {
  receivers = answer_at_once (some e) p.receivers;
  payload = [];
}

abbrev pub submit_by : OptError → Send → Publisher → Publisher
submit_by none send p =
    let message : Sent = record {
      request = publish p.timeout_us (length p.payload);
      payload = p.payload;
    } in
    submitted (send message) message p
submit_by (some e) send p = record p { receivers = answer_at_once (some e) p.receivers }

unfoldable pub submit : Send → Publisher → Publisher
submit send p = submit_by p.receivers.completion_error send p

abbrev pub priority_sent : OptError → Sent → Publisher → OptError × Publisher
priority_sent none message p = (none, record p { sent = p.sent ++ message ∷ [] })
priority_sent (some e) message p = (some e, p)

abbrev pub set_priority_by : OptError → Send → ℕ → Publisher → OptError × Publisher
set_priority_by none send priority p =
    let message : Sent = record { request = config (priority ∷ []); payload = [] } in
    priority_sent (send message) message p
set_priority_by (some e) send priority p = (some e, p)

unfoldable pub set_priority : Send → ℕ → Publisher → OptError × Publisher
set_priority send priority p = set_priority_by p.receivers.completion_error send priority p

-- `handleEvent(Input)`
unfoldable pub handle_input : Response → Publisher → Publisher
unfolding notify_received dsdl_error_to_opt_error
handle_input created p = p
handle_input (publish_error e) p = record p {
  receivers = notify_received (dsdl_error_to_opt_error e) p.receivers;
}

-- `handleEvent(Completed)`
unfoldable pub handle_completed : OptError → Publisher → Publisher
unfolding end_receivers
handle_completed opt_error p = record p { receivers = end_receivers some opt_error p.receivers }
