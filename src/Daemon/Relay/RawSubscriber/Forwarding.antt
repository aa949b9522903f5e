-- ===== src/Daemon/Relay/RawSubscriber/Forwarding.antt =====
-- What goes out for the messages of a subject (src/daemon/engine/svc/relay/raw_subscriber_service.cpp).
use mathlib.Core.List.{flatten}
use ocvsmd.Common.{
  ◌≡◌, sym, ◌∙◌, ap, subst, false, none, some, List, [], ◌∷◌, ◌++◌, map, if◌then◌else◌,
  append_assoc, append-nil,
}
use ocvsmd.Io.SocketBuffer.{Payload, bytes, of_scattered, of_scattered_lem}
use ocvsmd.Ipc.Route.{real_payload, real_payload-append}
use ocvsmd.Daemon.Relay.RawSubscriber.{
  Message, Fsm, Env, fault, sent_by, receive_of, handle_node_message, handle_all,
}

-- Behind a head of any length stand just the bytes of the message's fragments.
pub real_payload-of_scattered :
    (header : Payload) (fragments : List Payload)
    → real_payload (header ++ bytes (of_scattered fragments)) (of_scattered fragments).size
      ≡ some (flatten fragments)
unfolding bytes
real_payload-of_scattered header fragments =
    let (valid, same) = of_scattered_lem fragments in
    real_payload-append header (bytes (of_scattered fragments)) (of_scattered fragments).size
      valid.sized
    ∙ ap some same

module _ (env : Env) (connected : (f : Fsm) → env.send f ≡ none) where
  message-sent :
      (m : Message) (f : Fsm)
      → f.life.is_released ≡ false
      → handle_node_message env m f ≡ record f { sent = f.sent ++ receive_of m ∷ [] }
  unfolding handle_node_message
  message-sent m f alive =
      subst
        (λ b.
          (if b then fault f else sent_by (env.send f) (receive_of m) f)
          ≡ record f { sent = f.sent ++ receive_of m ∷ [] })
        (sym alive) (ap (λ e. sent_by e (receive_of m) f) (connected f))

  -- The messages of the network go out one by one and in order.
  pub sent_all :
      (ms : List Message) (f : Fsm)
      → f.life.is_released ≡ false
      → (handle_all env ms f).sent ≡ f.sent ++ map receive_of ms
  unfolding handle_all
  sent_all [] f alive = sym (append-nil f.sent)
  sent_all (m ∷ ms) f alive =
      subst (λ g. (handle_all env ms g).sent ≡ f.sent ++ receive_of m ∷ map receive_of ms)
        (sym (message-sent m f alive))
        (sent_all ms (record f { sent = f.sent ++ receive_of m ∷ [] }) alive
          ∙ append_assoc f.sent (receive_of m ∷ []) (map receive_of ms))
