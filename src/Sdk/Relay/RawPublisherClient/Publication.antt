-- ===== src/Sdk/Relay/RawPublisherClient/Publication.antt =====
-- Messages from a client's publisher to the network, and what becomes of them back to its receivers:
-- src/sdk/svc/relay/raw_publisher_client.cpp and src/daemon/engine/svc/relay/raw_publisher_service.cpp on a
-- channel that keeps the order of messages.
use ocvsmd.Common.{
  ℕ, ◌+◌, ◌≡◌, refl, sym, ◌∙◌, ap, subst, false, none, some, List, [], ◌∷◌, ◌++◌, length, drop,
  drop-append, length-append, append_assoc, append-nil,
}
use ocvsmd.Common.Int.{ℤ}
use ocvsmd.Error.{OptError, opt_error_to_dsdl_error}
use ocvsmd.Error.RoundTrip.{IsWireOpt, dsdl_error_to_opt_error-opt_error_to_dsdl_error}
use ocvsmd.Io.SocketBuffer.{Payload}
use ocvsmd.Daemon.Relay.RawPublisher
use ocvsmd.Daemon.Relay.RawPublisher.{
  Request, config, publish, Response, publish_error, Published, Fsm, Env, failure_of,
}
use ocvsmd.Daemon.Relay.RawPublisher.Publishing.{act, priority-act, send-act}
use ocvsmd.Sdk.NodeClient.{to_u64}
use ocvsmd.Sdk.Relay.{Call, keep_receiver, notify_received}
use ocvsmd.Sdk.Relay.RawPublisherClient
use ocvsmd.Sdk.Relay.RawPublisherClient.{
  Sent, Publisher, Send, raw_publish, submit, submit_by, set_priority_by, handle_input,
}

-- What a client does with its publisher; a message is submitted as soon as it is made.
pub data Operation : Type 0 where
  set_priority_to : (priority : ℕ) → Operation
  publish_raw : (raw_payload : Payload) (timeout : ℤ) → Operation

-- The two ends of the channel.
pub record Ends : Type 0 where
  pub client : Publisher
  pub service : Fsm

abbrev works : Send
works message = none

unfoldable pub operate : Operation → Publisher → Publisher
unfolding raw_publish submit RawPublisherClient.set_priority
operate (set_priority_to priority) p = (RawPublisherClient.set_priority works priority p).1
operate (publish_raw raw_payload timeout) p = submit works (raw_publish raw_payload timeout p)

-- The responses that came, the first one first.
abbrev pub hear_responses : List Response → Publisher → Publisher
hear_responses [] p = p
hear_responses (r ∷ rs) p = hear_responses rs (handle_input r p)

module _ (env : Env) (header : Request → Payload) where
  -- The bytes of a request come behind its serialized head.
  abbrev pub hear_requests : List Sent → Fsm → Fsm
  hear_requests [] f = f
  hear_requests (m ∷ ms) f =
      hear_requests ms (RawPublisher.handle_input env m.request (header m.request ++ m.payload) f)

  abbrev answered : Ends → Publisher → Fsm → Ends
  answered j c f = record {
    client = hear_responses (drop (length j.service.sent) f.sent) c;
    service = f;
  }

  abbrev exchanged : Ends → Publisher → Ends
  exchanged j c = answered j c (hear_requests (drop (length j.client.sent) c.sent) j.service)

  -- The service hears what the operation sends, and the client what the service answers.
  unfoldable pub in_turn : Operation → Ends → Ends
  unfolding operate handle_input RawPublisher.handle_input
  in_turn op j = exchanged j (operate op j.client)

  unfoldable pub all_in_turn : List Operation → Ends → Ends
  unfolding in_turn
  all_in_turn [] j = j
  all_in_turn (op ∷ ops) j = all_in_turn ops (in_turn op j)

abbrev published_for : ℕ → Payload → ℤ → Published
published_for priority raw_payload timeout = record {
  priority = priority;
  timeout_us = to_u64 timeout;
  bytes = raw_payload;
}

abbrev message_for : Payload → ℤ → Sent
message_for raw_payload timeout = record {
  request = publish (to_u64 timeout) (length raw_payload);
  payload = raw_payload;
}

-- Both ends after a message, with its result as the service and as the client's receiver has it.
abbrev after_message : Published → Sent → OptError → OptError → Ends → Ends
after_message m message result heard j = record {
  client = record (j.client) {
    receivers = record (keep_receiver j.client.receivers) {
      calls =
          j.client.receivers.calls
          ++ record { receiver = j.client.receivers.next_receiver; result = heard } ∷ [];
    };
    timeout_us = m.timeout_us;
    payload = [];
    sent = j.client.sent ++ message ∷ [];
  };
  service = record (j.service) {
    published = j.service.published ++ m ∷ [];
    sent = j.service.sent ++ publish_error (opt_error_to_dsdl_error result) ∷ [];
  };
}

-- The messages of the operations, each with the priority set last before it.
abbrev pub messages : ℕ → List Operation → List Published
messages priority [] = []
messages priority (set_priority_to new_priority ∷ ops) = messages new_priority ops
messages priority (publish_raw raw_payload timeout ∷ ops) =
    published_for priority raw_payload timeout ∷ messages priority ops

-- What the Cyphal side makes of each message, told to the receiver of just that message.
abbrev pub outcomes : Env → ℕ → ℕ → List Published → List (Call OptError)
outcomes env n k [] = []
outcomes env n k (m ∷ ms) =
    record { receiver = k; result = failure_of (env.publish_raw n m) }
    ∷ outcomes env (n + 1) (k + 1) ms

module _ (p : Publisher) (going : p.receivers.completion_error ≡ none) where
  set_priority-operate :
      (priority : ℕ)
      → operate (set_priority_to priority) p ≡ record p {
        sent = p.sent ++ record { request = config (priority ∷ []); payload = [] } ∷ [];
      }
  unfolding operate RawPublisherClient.set_priority
  set_priority-operate priority = ap (λ o. (set_priority_by o works priority p).1) going

  publish-operate :
      (raw_payload : Payload) (timeout : ℤ)
      → operate (publish_raw raw_payload timeout) p ≡ record {
        receivers = keep_receiver p.receivers;
        timeout_us = to_u64 timeout;
        payload = [];
        sent = p.sent ++ message_for raw_payload timeout ∷ [];
      }
  unfolding operate submit raw_publish
  publish-operate raw_payload timeout =
      ap (λ o. submit_by o works (raw_publish raw_payload timeout p)) going

module _ (env : Env) (header : Request → Payload) (connected : (f : Fsm) → env.send f ≡ none)
    (told : (n : ℕ) (m : Published) → IsWireOpt (failure_of (env.publish_raw n m))) (j : Ends)
    (priority : ℕ) (alive : j.service.life.is_released ≡ false)
    (there : j.service.cy_raw_publisher ≡ some priority)
    (going : j.client.receivers.completion_error ≡ none) where
  -- One message there, and its answers back.
  exchanged-sent :
      (c : Publisher) (m : Sent) (f : Fsm) (replies : List Response)
      → c.sent ≡ j.client.sent ++ m ∷ []
      → RawPublisher.handle_input env m.request (header m.request ++ m.payload) j.service ≡ f
      → f.sent ≡ j.service.sent ++ replies
      → exchanged env header j c ≡ record { client = hear_responses replies c; service = f }
  exchanged-sent c m f replies out heard back =
      ap (λ ms. answered env header j c (hear_requests env header ms j.service))
        (ap (drop (length j.client.sent)) out
          ∙ drop-append (length j.client.sent) j.client.sent (m ∷ []) refl)
      ∙ ap (answered env header j c) heard
      ∙ ap (λ rs. record { client = hear_responses rs c; service = f })
          (ap (drop (length j.service.sent)) back
            ∙ drop-append (length j.service.sent) j.service.sent replies refl)

  set_priority-in_turn :
      (new_priority : ℕ)
      → in_turn env header (set_priority_to new_priority) j ≡ record {
        client = record (j.client) {
          sent =
              j.client.sent ++ record { request = config (new_priority ∷ []); payload = [] } ∷ [];
        };
        service = record (j.service) { cy_raw_publisher = some new_priority };
      }
  unfolding in_turn act RawPublisher.handle_input
  set_priority-in_turn new_priority =
      ap (exchanged env header j) (set_priority-operate j.client going new_priority)
      ∙ exchanged-sent _ _ _ [] refl
          (priority-act env connected priority new_priority j.service alive there)
          (sym (append-nil j.service.sent))

  publish-in_turn :
      (raw_payload : Payload) (timeout : ℤ)
      → let m = published_for priority raw_payload timeout in
        in_turn env header (publish_raw raw_payload timeout) j
        ≡ after_message m
            (message_for raw_payload timeout)
            (failure_of (env.publish_raw (length j.service.published) m))
            (failure_of (env.publish_raw (length j.service.published) m))
            j
  unfolding in_turn act RawPublisher.handle_input handle_input notify_received
  publish-in_turn raw_payload timeout =
      ap (exchanged env header j) (publish-operate j.client going raw_payload timeout)
      ∙ exchanged-sent _ message _ (publish_error (opt_error_to_dsdl_error result) ∷ []) refl
          (send-act env connected priority (to_u64 timeout) (header message.request) raw_payload
            j.service alive there)
          refl
      ∙ ap (λ heard. after_message m message result heard j)
          (dsdl_error_to_opt_error-opt_error_to_dsdl_error result
            (told (length j.service.published) m))
    where
      m : Published
      m = published_for priority raw_payload timeout

      message : Sent
      message = message_for raw_payload timeout

      result : OptError
      result = failure_of (env.publish_raw (length j.service.published) m)

module _ (env : Env) (header : Request → Payload) (connected : (f : Fsm) → env.send f ≡ none)
    (told : (n : ℕ) (m : Published) → IsWireOpt (failure_of (env.publish_raw n m))) where
  -- A client sets priorities and publishes messages, each when the one before it was answered, on a
  -- channel that carries requests and responses in order, at whose service there is a publisher, whose
  -- failures have codes that survive the wire. Then just the bytes of each message go out in order, with
  -- the priority set last before it, and the receiver of each message, and no other, is called just once,
  -- with what the Cyphal side made of that message.
  pub all_in_turn_lem :
      (ops : List Operation) (priority : ℕ) (j : Ends)
      → j.service.life.is_released ≡ false
      → j.service.cy_raw_publisher ≡ some priority
      → j.client.receivers.completion_error ≡ none
      → ((all_in_turn env header ops j).service.published
          ≡ j.service.published ++ messages priority ops)
        × ((all_in_turn env header ops j).client.receivers.calls
            ≡ j.client.receivers.calls
              ++ outcomes env
                  (length j.service.published)
                  j.client.receivers.next_receiver
                  (messages priority ops))
  unfolding all_in_turn
  all_in_turn_lem [] priority j alive there going =
      (sym (append-nil j.service.published), sym (append-nil j.client.receivers.calls))
  all_in_turn_lem (set_priority_to new_priority ∷ ops) priority j alive there going =
      subst
        (λ k.
          ((all_in_turn env header ops k).service.published
            ≡ j.service.published ++ messages new_priority ops)
          × ((all_in_turn env header ops k).client.receivers.calls
              ≡ j.client.receivers.calls
                ++ outcomes env (length j.service.published) j.client.receivers.next_receiver
                    (messages new_priority ops)))
        (sym (
          set_priority-in_turn env header connected told j priority alive there going new_priority))
        (all_in_turn_lem ops new_priority _ alive refl going)
  all_in_turn_lem (publish_raw raw_payload timeout ∷ ops) priority j alive there going =
      subst
        (λ k.
          ((all_in_turn env header ops k).service.published
            ≡ j.service.published ++ m ∷ messages priority ops)
          × ((all_in_turn env header ops k).client.receivers.calls
              ≡ j.client.receivers.calls ++ call ∷ more (length j.service.published + 1)))
        (sym (
          publish-in_turn env header connected told j priority alive there going raw_payload
            timeout))
        (let later =
            all_in_turn_lem ops priority (after_message m message call.result call.result j) alive
              there going in
          (
            later.0 ∙ append_assoc j.service.published (m ∷ []) (messages priority ops),
            later.1
                ∙ ap (λ n. (j.client.receivers.calls ++ call ∷ []) ++ more n)
                    (length-append j.service.published (m ∷ []))
                ∙ append_assoc j.client.receivers.calls (call ∷ [])
                    (more (length j.service.published + 1)),
          ))
    where
      m : Published
      m = published_for priority raw_payload timeout

      message : Sent
      message = message_for raw_payload timeout

      call : Call OptError
      call = record {
        receiver = j.client.receivers.next_receiver;
        result = failure_of (env.publish_raw (length j.service.published) m);
      }

      more : ℕ → List (Call OptError)
      more n = outcomes env n (j.client.receivers.next_receiver + 1) (messages priority ops)
