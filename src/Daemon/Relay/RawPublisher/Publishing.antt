-- ===== src/Daemon/Relay/RawPublisher/Publishing.antt =====
-- What a channel publishes (src/daemon/engine/svc/relay/raw_publisher_service.cpp).
use ocvsmd.Common.{
  ℕ, ◌+◌, ◌≡◌, refl, sym, ◌∙◌, ap, subst, false, none, some, List, [], ◌∷◌, ◌++◌, if◌then◌else◌,
  length, length-append, append_assoc, append-nil,
}
use ocvsmd.Error.{opt_error_to_dsdl_error}
use ocvsmd.Io.SocketBuffer.{Payload}
use ocvsmd.Ipc.Route.{real_payload-append}
use ocvsmd.Daemon.Relay.RawPublisher.{
  config, publish, Response, publish_error, Published, Fsm, Env, fault, failure_of, sent_by,
  send_publish_response, publish_bytes, publish_with, configure, input_event, handle_input,
}

-- What a client does with a publisher: sets its priority, or publishes bytes, which stand in the
-- channel's payload behind the request.
pub data Action : Type 0 where
  set_priority : (priority : ℕ) → Action
  send_raw : (timeout_us : ℕ) (header bytes : Payload) → Action

unfoldable pub act : Env → Action → Fsm → Fsm
act env (set_priority priority) f = handle_input env (config (priority ∷ [])) [] f
act env (send_raw timeout_us header bytes) f =
    handle_input env (publish timeout_us (length bytes)) (header ++ bytes) f

unfoldable pub act_all : Env → List Action → Fsm → Fsm
unfolding act
act_all env [] f = f
act_all env (a ∷ actions) f = act_all env actions (act env a f)

-- What should go out: the bytes of each action in order, with the priority set last before it.
abbrev pub messages : ℕ → List Action → List Published
messages priority [] = []
messages priority (set_priority new_priority ∷ actions) = messages new_priority actions
messages priority (send_raw timeout_us header bytes ∷ actions) =
    record { priority = priority; timeout_us = timeout_us; bytes = bytes }
    ∷ messages priority actions

-- What should come back: for each message what the Cyphal side made of it.
abbrev pub replies : Env → ℕ → List Published → List Response
replies env n [] = []
replies env n (m ∷ ms) =
    publish_error (opt_error_to_dsdl_error (failure_of (env.publish_raw n m)))
    ∷ replies env (n + 1) ms

module _ (env : Env) (connected : (f : Fsm) → env.send f ≡ none) where
  pub priority-act :
      (priority new_priority : ℕ) (f : Fsm)
      → f.life.is_released ≡ false
      → f.cy_raw_publisher ≡ some priority
      → act env (set_priority new_priority) f ≡ record f { cy_raw_publisher = some new_priority }
  unfolding act handle_input
  priority-act priority new_priority f alive there =
      subst
        (λ b.
          (if b then fault f else input_event env (config (new_priority ∷ [])) [] f)
          ≡ record f { cy_raw_publisher = some new_priority })
        (sym alive) (ap (λ o. configure env o (new_priority ∷ []) f) there)

  pub send-act :
      (priority timeout_us : ℕ) (header bytes : Payload) (f : Fsm)
      → f.life.is_released ≡ false
      → f.cy_raw_publisher ≡ some priority
      → let m : Published = record {
        priority = priority;
        timeout_us = timeout_us;
        bytes = bytes;
      } in
        act env (send_raw timeout_us header bytes) f ≡ record f {
          published = f.published ++ m ∷ [];
          sent =
              f.sent
              ++ publish_error
                  (opt_error_to_dsdl_error (failure_of (env.publish_raw (length f.published) m)))
                ∷ [];
        }
  unfolding act handle_input send_publish_response
  send-act priority timeout_us header bytes f alive there =
      subst
        (λ b.
          (if b
            then fault f
            else input_event env (publish timeout_us (length bytes)) (header ++ bytes) f)
          ≡ record f {
            published = f.published ++ m ∷ [];
            sent =
                f.sent
                ++ publish_error
                    (opt_error_to_dsdl_error (failure_of (env.publish_raw (length f.published) m)))
                  ∷ [];
          })
        (sym alive)
        (ap (λ o. publish_with env o timeout_us (length bytes) (header ++ bytes) f) there
          ∙ ap (λ o. publish_bytes env priority timeout_us o f)
              (real_payload-append header bytes (length bytes) refl)
          ∙ ap
              (λ e.
                sent_by e
                  (publish_error
                    (opt_error_to_dsdl_error (failure_of (env.publish_raw (length f.published) m))))
                  (record f { published = f.published ++ m ∷ [] }))
              (connected _))
    where
      m : Published
      m = record { priority = priority; timeout_us = timeout_us; bytes = bytes }

  -- On a channel with a publisher, whose responses go out, any actions hand to the publisher just the
  -- bytes of each message in order, each with the priority set last before it; and for each message one
  -- response comes back, in order, with what the Cyphal side made of it.
  pub act_all_lem :
      (actions : List Action) (priority : ℕ) (f : Fsm)
      → f.life.is_released ≡ false
      → f.cy_raw_publisher ≡ some priority
      → ((act_all env actions f).published ≡ f.published ++ messages priority actions)
        × ((act_all env actions f).sent
            ≡ f.sent ++ replies env (length f.published) (messages priority actions))
  unfolding act_all
  act_all_lem [] priority f alive there = (sym (append-nil f.published), sym (append-nil f.sent))
  act_all_lem (set_priority new_priority ∷ actions) priority f alive there =
      subst
        (λ g.
          ((act_all env actions g).published ≡ f.published ++ messages new_priority actions)
          × ((act_all env actions g).sent
              ≡ f.sent ++ replies env (length f.published) (messages new_priority actions)))
        (sym (priority-act priority new_priority f alive there))
        (act_all_lem actions new_priority (record f { cy_raw_publisher = some new_priority }) alive
          refl)
  act_all_lem (send_raw timeout_us header bytes ∷ actions) priority f alive there =
      subst
        (λ g.
          ((act_all env actions g).published ≡ f.published ++ m ∷ messages priority actions)
          × ((act_all env actions g).sent
              ≡ f.sent ++ reply ∷ replies env (length f.published + 1) (messages priority actions)))
        (sym (send-act priority timeout_us header bytes f alive there))
        (let later = act_all_lem actions priority g alive there in
          (
            later.0 ∙ append_assoc f.published (m ∷ []) (messages priority actions),
            later.1
                ∙ ap (λ n. (f.sent ++ reply ∷ []) ++ replies env n (messages priority actions))
                    (length-append f.published (m ∷ []))
                ∙ append_assoc f.sent (reply ∷ [])
                    (replies env (length f.published + 1) (messages priority actions)),
          ))
    where
      m : Published
      m = record { priority = priority; timeout_us = timeout_us; bytes = bytes }

      reply : Response
      reply =
          publish_error
            (opt_error_to_dsdl_error (failure_of (env.publish_raw (length f.published) m)))

      g : Fsm
      g = record f { published = f.published ++ m ∷ []; sent = f.sent ++ reply ∷ [] }
