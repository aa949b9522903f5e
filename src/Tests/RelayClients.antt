-- ===== src/Tests/RelayClients.antt =====
-- The relay clients of src/sdk/svc/relay at concrete inputs.
use ocvsmd.Common.{map, drop, ◌≡◌, refl, none, some, List, [], ◌∷◌, ◌++◌}
use ocvsmd.Common.Int.{pos}
use ocvsmd.Error.{error, canceled, opt_error_to_dsdl_error, raw_code, dsdl_error_to_opt_error}
use ocvsmd.Error.RoundTrip.{IsWire}
use ocvsmd.Io.SocketBuffer.{Payload}
use ocvsmd.Daemon.CyError.{success, cy_error_to_sdk_error, expired}
use ocvsmd.Daemon.Relay.RawPublisher
use ocvsmd.Daemon.Relay.RawPublisher.{Request, Published, publish_error, failure_of}
use ocvsmd.Sdk.Relay.{notify_received, end_receivers}
use ocvsmd.Daemon.Relay.RawSubscriber
use ocvsmd.Sdk.Relay.{no_receiver}
use ocvsmd.Sdk.Relay.RawSubscriberClient
use ocvsmd.Sdk.Relay.RawSubscriberClient.{Subscriber}
use ocvsmd.Sdk.Relay.RawSubscriberClient.Subscription.{hear, call_for, all_received}
use ocvsmd.Sdk.Relay.RawPublisherClient
use ocvsmd.Sdk.Relay.RawPublisherClient.{handle_input, handle_completed, submit, raw_publish}
use ocvsmd.Sdk.Relay.RawPublisherClient.Publication.{
  Operation, set_priority_to, publish_raw, Ends, all_in_turn, messages, outcomes, all_in_turn_lem,
}

abbrev expiring : RawPublisher.Env
expiring = record {
  make_publisher = λ subject. success;
  default_priority = 4;
  publish_raw = λ n m. some expired;
  send = λ f. none;
}

abbrev ends : Ends
ends = record {
  client = RawPublisherClient.make;
  service = record RawPublisher.make { cy_raw_publisher = some 4 };
}

abbrev header : Request → Payload
header r = 0 ∷ 0 ∷ []

abbrev operations : List Operation
operations = publish_raw (1 ∷ 2 ∷ []) (pos 100) ∷ set_priority_to 1 ∷ publish_raw [] (pos 100) ∷ []

expired-IsWire : IsWire (cy_error_to_sdk_error expired)
unfolding cy_error_to_sdk_error
expired-IsWire = record { code = tt; errno = tt }

all_in_turn_example :
    ((all_in_turn expiring header operations ends).service.published ≡ [] ++ messages 4 operations)
    × ((all_in_turn expiring header operations ends).client.receivers.calls
        ≡ [] ++ outcomes expiring 0 0 (messages 4 operations))
all_in_turn_example =
    all_in_turn_lem expiring header (λ f. refl) (λ n m. expired-IsWire) operations 4 ends refl refl
      refl

-- The receiver of a message that was published is called again when the channel ends.
told_twice :
    (handle_completed none (
      handle_input (publish_error (opt_error_to_dsdl_error none)) (
        submit
          (λ m. none)
          (raw_publish (1 ∷ []) (pos 100) RawPublisherClient.make)))).receivers.calls
    ≡ record { receiver = 0; result = none }
      ∷ record { receiver = 0; result = some (error canceled) }
      ∷ []
unfolding handle_completed handle_input submit raw_publish notify_received end_receivers
    opt_error_to_dsdl_error dsdl_error_to_opt_error
told_twice = refl

-- Of two messages at once, the second receiver is told what became of the first.
overtaken :
    (handle_input
      (publish_error (opt_error_to_dsdl_error (some (error canceled))))
      (submit (λ m. none) (submit (λ m. none) RawPublisherClient.make))).receivers.calls
    ≡ record { receiver = 1; result = some (error canceled) } ∷ []
unfolding handle_input submit notify_received opt_error_to_dsdl_error dsdl_error_to_opt_error
    raw_code
overtaken = refl

abbrev subscribing : RawSubscriber.Env
subscribing = record { make_subscriber = λ extent subject. success; send = λ f. none }

abbrev heard : List RawSubscriber.Message
heard =
    record {
      priority = 4;
      publisher_node_id = some 42;
      fragments = (1 ∷ []) ∷ [] ∷ (2 ∷ 3 ∷ []) ∷ [];
    }
    ∷ record { priority = 0; publisher_node_id = none; fragments = [] }
    ∷ []

abbrev subscriber : Subscriber
subscriber = RawSubscriberClient.submit no_receiver

waits : subscriber.receiver ≡ some 0
unfolding RawSubscriberClient.submit
waits = refl

all_received_example :
    hear
      (9 ∷ [])
      (drop 0 (RawSubscriber.handle_all subscribing heard RawSubscriber.make).sent)
      subscriber
    ≡ some (record subscriber { calls = subscriber.calls ++ map (call_for 0) heard })
all_received_example =
    all_received subscribing (9 ∷ []) 0 heard RawSubscriber.make subscriber (λ g. refl) refl waits
