-- ===== src/Sdk/Relay/RawSubscriberClient/Subscription.antt =====
-- Messages from the network to a client's receiver: src/daemon/engine/svc/relay/raw_subscriber_service.cpp and
-- src/sdk/svc/relay/raw_subscriber_client.cpp on a channel that keeps the order of messages.
use mathlib.Core.List.{flatten}
use ocvsmd.Common.{
  ℕ, ◌≡◌, refl, sym, ◌∙◌, ap, false, Option, none, some, List, [], ◌∷◌, ◌++◌, map, length, drop,
  drop-append, append-nil, append_assoc,
}
use ocvsmd.Io.SocketBuffer.{Payload, of_scattered}
use ocvsmd.Daemon.Relay.RawSubscriber
use ocvsmd.Daemon.Relay.RawSubscriber.{Message, Fsm, Env, to_list, receive_of, handle_all}
use ocvsmd.Daemon.Relay.RawSubscriber.Forwarding.{sent_all, real_payload-of_scattered}
use ocvsmd.Sdk.Relay.{Call, notify, notify_received}
use ocvsmd.Sdk.Relay.RawSubscriberClient
use ocvsmd.Sdk.Relay.RawSubscriberClient.{
  Received, success, Subscriber, front, received_of, handle_input,
}

-- A response of the service as it comes to the client, behind its serialized head.
abbrev hear_one : Payload → RawSubscriber.Response → Subscriber → Option Subscriber
hear_one header RawSubscriber.created s = handle_input RawSubscriberClient.empty header s
hear_one header (RawSubscriber.receive r raw) s =
    handle_input (RawSubscriberClient.receive r) (header ++ raw) s

abbrev then_hear : Option Subscriber → (Subscriber → Option Subscriber) → Option Subscriber
then_hear none go_on = none
then_hear (some s) go_on = go_on s

unfoldable pub hear : Payload → List RawSubscriber.Response → Subscriber → Option Subscriber
unfolding handle_input
hear header [] s = some s
hear header (r ∷ rs) s = then_hear (hear_one header r s) (hear header rs)

-- What the receiver should be called with for a message.
abbrev pub call_for : ℕ → Message → Call Received
call_for k m = record {
  receiver = k;
  result = success (flatten m.fragments) m.priority m.publisher_node_id;
}

front-to_list : (o : Option ℕ) → front (to_list o) ≡ o
front-to_list none = refl
front-to_list (some n) = refl

message-heard :
    (header : Payload) (k : ℕ) (m : Message) (s : Subscriber)
    → s.receiver ≡ some k
    → hear_one header (receive_of m) s ≡ some (record s { calls = s.calls ++ call_for k m ∷ [] })
unfolding receive_of handle_input notify_received
message-heard header k m s waits =
    ap
      (λ bs.
        received_of
          (record {
            priority = m.priority;
            remote_node_id = to_list m.publisher_node_id;
            payload_size = (of_scattered m.fragments).size;
          })
          bs s)
      (real_payload-of_scattered header m.fragments)
    ∙ ap
        (λ o. some (
          notify o (success (flatten m.fragments) m.priority (front (to_list m.publisher_node_id)))
            s))
        waits
    ∙ ap
        (λ n. some (record s {
          calls =
              s.calls
              ++ record { receiver = k; result = success (flatten m.fragments) m.priority n } ∷ [];
        }))
        (front-to_list m.publisher_node_id)

all-heard :
    (header : Payload) (k : ℕ) (ms : List Message) (s : Subscriber)
    → s.receiver ≡ some k
    → hear header (map receive_of ms) s ≡ some (record s { calls = s.calls ++ map (call_for k) ms })
unfolding hear
all-heard header k [] s waits = ap (λ l. some (record s { calls = l })) (sym (append-nil s.calls))
all-heard header k (m ∷ ms) s waits =
    ap (λ o. then_hear o (hear header (map receive_of ms))) (message-heard header k m s waits)
    ∙ all-heard header k ms (record s { calls = s.calls ++ call_for k m ∷ [] }) waits
    ∙ ap (λ l. some (record s { calls = l }))
        (append_assoc s.calls (call_for k m ∷ []) (map (call_for k) ms))

-- On a channel that is there, whose responses all go out and come to the client in order behind heads of
-- any length, and with a receiver that the client submitted: the receiver is called once for each message
-- from the network, in order, with just the bytes of its fragments, its priority, and the node that
-- published it, if that is known.
pub all_received :
    (env : Env) (header : Payload) (k : ℕ) (ms : List Message) (f : Fsm) (s : Subscriber)
    → ((g : Fsm) → env.send g ≡ none)
    → f.life.is_released ≡ false
    → s.receiver ≡ some k
    → hear header (drop (length f.sent) (handle_all env ms f).sent) s
      ≡ some (record s { calls = s.calls ++ map (call_for k) ms })
all_received env header k ms f s connected alive waits =
    ap (λ rs. hear header rs s)
      (ap (drop (length f.sent)) (sent_all env connected ms f alive)
        ∙ drop-append (length f.sent) f.sent (map receive_of ms) refl)
    ∙ all-heard header k ms s waits
