-- ===== src/Ipc/ClientRouter/Numbers.antt =====
-- Sequence numbers in any run of the client router (src/common/ipc/client_router.cpp).
use ocvsmd.Common.{
  ℕ, ◌≡◌, refl, Bool, Option, none, some, List, [], ◌∷◌, if_cases, Option-cases, inl, inr,
}
use ocvsmd.Common.Map.{Map, lookup, keys}
use ocvsmd.Error.{OptError}
use ocvsmd.Io.SocketBuffer.{Payload}
use ocvsmd.Ipc.Gateway.{Event, connected}
use ocvsmd.Ipc.Route.{
  Route, empty, connect, channel_msg, channel_end, ChannelMsg, ChannelEnd, real_payload,
}
use ocvsmd.Ipc.ClientRouter.{
  Gateway, ClientRouter, Env, init, is_registered_gateway, find_registered, gateway_event,
  event_if_alive, event_if_registered, gateway_subscribe, complete_each, handle_disconnected,
  strong, held, connect_each, handle_route_connect, handle_route_channel_msg,
  handle_route_channel_end, handle_route, handle_message, with_gateway,
}
use ocvsmd.Ipc.ClientRouter.Steps.{
  Step, makes, sends, completes, subscribes, disposes, pipe_connects, pipe_disconnects, receives,
  Reach, here, next,
}
use ocvsmd.Ipc.ClientRouter.Sequence.{
  sequences_of, counted_up, InOrder, IsOrderly, like-IsOrderly, with_gateway-IsOrderly,
  make_gateway-IsOrderly, Writes, KeepsOrder, gateway_send-IsOrderly, gateway_complete-IsOrderly,
  gateway_dispose-IsOrderly, handle_connected-IsOrderly,
}

module _ (env : Env) (respects : KeepsOrder env) where
  gateway_event-IsOrderly :
      (t : ℕ) (g : Gateway) (e : Event) (r : ClientRouter)
      → IsOrderly r
      → IsOrderly (gateway_event env t g e r).1
  unfolding gateway_event
  gateway_event-IsOrderly t g e r o =
      if_cases (λ (x : OptError × ClientRouter). IsOrderly x.1) g.has_handler
        (λ _.
          respects t e _
            (like-IsOrderly r _ (record { tags = refl; alive = refl; numbers = λ u. refl }) o))
        (λ _. o)

  event_if_alive-IsOrderly :
      (t : ℕ) (e : Event) (r : ClientRouter) → IsOrderly r → IsOrderly (event_if_alive env t e r).1
  unfolding event_if_alive
  event_if_alive-IsOrderly t e r o = elim (Option-cases (lookup t r.gateways)) [
    | inl x ↦ rw (x, event_if_alive) o
    | inr (g, x) ↦ rw (x, event_if_alive) (gateway_event-IsOrderly t g e r o)
  ]

  event_if_registered-IsOrderly :
      (t : ℕ) (e : Event) (r : ClientRouter)
      → IsOrderly r
      → IsOrderly (event_if_registered env t e r).1
  unfolding event_if_registered
  event_if_registered-IsOrderly t e r o =
      if_cases (λ (x : OptError × ClientRouter). IsOrderly x.1) (is_registered_gateway r t)
        (λ _. event_if_alive-IsOrderly t e r o) (λ _. o)

  gateway_subscribe-IsOrderly :
      (t : ℕ) (g : Gateway) (has_handler : Bool) (r : ClientRouter)
      → lookup t r.gateways ≡ some g
      → IsOrderly r
      → IsOrderly (gateway_subscribe env t g has_handler r)
  unfolding gateway_subscribe
  gateway_subscribe-IsOrderly t g has_handler r e o =
      let w = record g { has_handler = has_handler } in
      let o' = with_gateway-IsOrderly t g w r e refl o in
      if_cases IsOrderly r.is_connected
        (λ _. event_if_registered-IsOrderly t connected (with_gateway r t w) o') (λ _. o')

  complete_each-IsOrderly :
      (ts : List ℕ) (r : ClientRouter) → IsOrderly r → IsOrderly (complete_each env ts r)
  unfolding complete_each
  complete_each-IsOrderly [] r o = o
  complete_each-IsOrderly (t ∷ ts) r o =
      complete_each-IsOrderly ts _ (event_if_alive-IsOrderly t _ r o)

  connect_each-IsOrderly :
      (gs : Map Gateway) (r : ClientRouter) → IsOrderly r → IsOrderly (connect_each env gs r)
  unfolding connect_each
  connect_each-IsOrderly [] r o = o
  connect_each-IsOrderly ((t, g) ∷ gs) r o =
      connect_each-IsOrderly gs _ (gateway_event-IsOrderly t (held t g r) connected r o)

  handle_disconnected-IsOrderly :
      (r : ClientRouter) → IsOrderly r → IsOrderly (handle_disconnected env r).1
  unfolding handle_disconnected
  handle_disconnected-IsOrderly r o =
      if_cases IsOrderly r.is_connected
        (λ _.
          complete_each-IsOrderly (keys r.map_of_gateways) _
            (like-IsOrderly r _ (record { tags = refl; alive = refl; numbers = λ u. refl }) o))
        (λ _. o)

  handle_route_connect-IsOrderly :
      (r : ClientRouter) → IsOrderly r → IsOrderly (handle_route_connect env r).1
  unfolding handle_route_connect
  handle_route_connect-IsOrderly r o =
      if_cases IsOrderly r.is_connected (λ _. o)
        (λ _.
          connect_each-IsOrderly (strong (keys r.map_of_gateways) r) _
            (like-IsOrderly r _ (record { tags = refl; alive = refl; numbers = λ u. refl }) o))

  handle_route_channel_msg-IsOrderly :
      (m : ChannelMsg) (payload : Payload) (r : ClientRouter)
      → IsOrderly r
      → IsOrderly (handle_route_channel_msg env m payload r).1
  unfolding handle_route_channel_msg
  handle_route_channel_msg-IsOrderly m payload r o =
      elim (Option-cases (real_payload payload m.payload_size)) [
        | inl e ↦
            rw (e, handle_route_channel_msg)
              (like-IsOrderly r _ (record { tags = refl; alive = refl; numbers = λ u. refl }) o)
        | inr (real, e) ↦
            rw (e, handle_route_channel_msg) (event_if_registered-IsOrderly m.tag _ r o)
      ]

  handle_route_channel_end-IsOrderly :
      (m : ChannelEnd) (r : ClientRouter)
      → IsOrderly r
      → IsOrderly (handle_route_channel_end env m r).1
  unfolding handle_route_channel_end
  handle_route_channel_end-IsOrderly m r o =
      if_cases (λ (x : OptError × ClientRouter). IsOrderly x.1) (find_registered r m.tag)
        (λ _. event_if_alive-IsOrderly m.tag _ _ (
          if_cases IsOrderly m.keep_alive (λ _. o)
            (λ _.
              like-IsOrderly r _ (record { tags = refl; alive = refl; numbers = λ u. refl }) o)))
        (λ _. o)

  handle_message-IsOrderly :
      (payload : Payload) (r : ClientRouter)
      → IsOrderly r
      → IsOrderly (handle_message env payload r).1
  unfolding handle_message
  handle_message-IsOrderly payload r o = route-IsOrderly (env.codec.deserialize payload)
    where
      route-IsOrderly : (x : Option Route) → IsOrderly (handle_route env x payload r).1
      route-IsOrderly none = o
      route-IsOrderly (some empty) = o
      route-IsOrderly (some (connect c)) = handle_route_connect-IsOrderly r o
      route-IsOrderly (some (channel_msg m)) = handle_route_channel_msg-IsOrderly m payload r o
      route-IsOrderly (some (channel_end e)) = handle_route_channel_end-IsOrderly e r o

  module _ (writes : Writes env) where
    Step-IsOrderly : {r s : ClientRouter} → Step env r s → IsOrderly r → IsOrderly s
    Step-IsOrderly {r} (makes room) o = make_gateway-IsOrderly r room o
    Step-IsOrderly {r} (sends t g id b e) o = gateway_send-IsOrderly env writes t g id b r e o
    Step-IsOrderly {r} (completes t g err k e) o = gateway_complete-IsOrderly env t g err k r e o
    Step-IsOrderly {r} (subscribes t g h e) o = gateway_subscribe-IsOrderly t g h r e o
    Step-IsOrderly {r} (disposes t g e) o = gateway_dispose-IsOrderly env t g r o
    Step-IsOrderly {r} pipe_connects o = handle_connected-IsOrderly env r o
    Step-IsOrderly {r} pipe_disconnects o = handle_disconnected-IsOrderly r o
    Step-IsOrderly {r} (receives payload) o = handle_message-IsOrderly payload r o

    Reach-IsOrderly : {r s : ClientRouter} → Reach env r s → IsOrderly r → IsOrderly s
    Reach-IsOrderly here o = o
    Reach-IsOrderly (next path step) o = Step-IsOrderly step (Reach-IsOrderly path o)

    init-IsOrderly : IsOrderly init
    unfolding lookup sequences_of counted_up
    init-IsOrderly = record {
      made = λ t g e. cc;
      fresh = λ t h. refl;
      order = λ t. record { sent = 0; numbers = refl; counter = λ g e. cc };
    }

    -- In every state that the client router gets to from its start, the messages given to the pipe for
    -- a gateway are numbered 0, 1, 2 and so on, modulo 2 ^ 64, in the order in which they were sent,
    -- without a gap and without a repetition, also across disconnections; and the counter of a
    -- gateway that is alive says how many they are. Handlers are taken to keep what the operations
    -- keep, and the serializer to have room for every route.
    pub numbered-InOrder : (s : ClientRouter) (tag : ℕ) → Reach env init s → InOrder s tag
    numbered-InOrder s tag path = (Reach-IsOrderly path init-IsOrderly).order tag
