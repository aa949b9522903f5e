-- ===== src/Ipc/ClientRouter/Silence.antt =====
-- A gateway of the client router whose registration is gone hears nothing more
-- (src/common/ipc/client_router.cpp).
use ocvsmd.Common.{
  ℕ, ◌+◌, ◌<◌, ◌≡◌, refl, Bool, true, false, ◌&&◌, Option, none, some, List, [], ◌∷◌, arith, ltb,
  ◌==◌, if◌then◌else◌, All, if_cases, Option-cases, inl, inr,
}
use ocvsmd.Common.Map.{Map, lookup, erase, keys, lookup-insert, lookup-erase, keys-ne}
use ocvsmd.Error.{OptError}
use ocvsmd.Io.SocketBuffer.{Payload, SocketBuffer}
use ocvsmd.Ipc.Gateway.{Event, connected}
use ocvsmd.Ipc.Route.{
  Route, empty, connect, channel_msg, channel_end, ChannelMsg, ChannelEnd, real_payload,
}
use ocvsmd.Ipc.ClientRouter.{
  u64_mod, Gateway, ClientRouter, Env, make_gateway, is_registered_gateway, find_registered, post,
  gateway_send, gateway_complete, gateway_event, event_if_alive, event_if_registered,
  gateway_subscribe, gateway_dispose, handle_connected, complete_each, handle_disconnected, strong,
  held, connect_each, handle_route_connect, handle_route_channel_msg, handle_route_channel_end,
  handle_route, handle_message, with_gateway,
}

-- The events that the handler of one gateway was called with, newest first.
unfoldable pub events_of : ℕ → List (ℕ × Event) → List Event
events_of tag [] = []
events_of tag ((t, e) ∷ es) = let rest = events_of tag es in if t == tag then e ∷ rest else rest

-- The tag was given out, is not registered any more, and its gateway has heard just `evs`.
pub record IsGone (tag : ℕ) (evs : List Event) (r : ClientRouter) : Type 0 where
  pub below : tag < r.next_tag
  pub unregistered : lookup tag r.map_of_gateways ≡ none
  pub heard : events_of tag r.events ≡ evs

-- Handlers work on the router through its operations, so they keep what the operations keep.
pub record IsRespectful (env : Env) : Type 0 where
  pub keeps :
      (tag : ℕ) (evs : List Event) (t : ℕ) (e : Event) (r : ClientRouter)
      → IsGone tag evs r
      → IsGone tag evs (env.react t e r).1

pub make_gateway-IsGone :
    (tag : ℕ) (evs : List Event) (r : ClientRouter)
    → r.next_tag + 1 < u64_mod
    → IsGone tag evs r
    → IsGone tag evs (make_gateway r).1
unfolding make_gateway
make_gateway-IsGone tag evs r room g = record {
  below = omega (arith, g.below);
  unregistered =
      ground (arith, lookup-insert r.next_tag tag tt r.map_of_gateways, g.below, g.unregistered);
  heard = g.heard;
}

module _ (env : Env) (tag : ℕ) (evs : List Event) where
  pub post-IsGone :
      (route : Route) (b : SocketBuffer) (r : ClientRouter)
      → IsGone tag evs r
      → IsGone tag evs (post env route b r).1
  unfolding post
  post-IsGone route b r g = elim (Option-cases (env.codec.serialize route)) [
    | inl e ↦ rw (e, post) g
    | inr (bs, e) ↦
        rw (e, post) (record { below = g.below; unregistered = g.unregistered; heard = g.heard })
  ]

  pub with_gateway-IsGone :
      (t : ℕ) (w : Gateway) (r : ClientRouter)
      → IsGone tag evs r
      → IsGone tag evs (with_gateway r t w)
  with_gateway-IsGone t w r g = record {
    below = g.below;
    unregistered = g.unregistered;
    heard = g.heard;
  }

  pub gateway_send-IsGone :
      (t : ℕ) (w : Gateway) (id : ℕ) (b : SocketBuffer) (r : ClientRouter)
      → IsGone tag evs r
      → IsGone tag evs (gateway_send env t w id b r).1
  unfolding gateway_send
  gateway_send-IsGone t w id b r g =
      if_cases P r.is_connected
        (λ _.
          if_cases P (is_registered_gateway r t)
            (λ _. post-IsGone _ b _ (with_gateway-IsGone t _ r g)) (λ _. g))
        (λ _. g)
    where
      P : OptError × ClientRouter → Type 0
      P o = IsGone tag evs o.1

  pub gateway_complete-IsGone :
      (t : ℕ) (w : Gateway) (err : OptError) (keep_alive : Bool) (r : ClientRouter)
      → IsGone tag evs r
      → IsGone tag evs (gateway_complete env t w err keep_alive r).1
  unfolding gateway_complete
  gateway_complete-IsGone t w err keep_alive r g =
      let g' = with_gateway-IsGone t (record w { completion_opt_error = err }) r g in
      if_cases P r.is_connected
        (λ _.
          if_cases P (is_registered_gateway r t)
            (λ _. if_cases P (w.next_sequence == 0) (λ _. g') (λ _. post-IsGone _ _ _ g')) (λ _. g))
        (λ _. g)
    where
      P : OptError × ClientRouter → Type 0
      P o = IsGone tag evs o.1

  pub gateway_dispose-IsGone :
      (t : ℕ) (w : Gateway) (r : ClientRouter)
      → IsGone tag evs r
      → IsGone tag evs (gateway_dispose env t w r)
  unfolding gateway_dispose
  gateway_dispose-IsGone t w r g =
      if_cases (IsGone tag evs)
        (is_registered_gateway r t && (ltb 0 w.next_sequence && r.is_connected))
        (λ _. post-IsGone _ _ _ g') (λ _. g')
    where
      g' :
          IsGone tag evs (record r {
            map_of_gateways = erase t r.map_of_gateways;
            gateways = erase t r.gateways;
          })
      g' = record {
        below = g.below;
        unregistered = ground (arith, lookup-erase t tag r.map_of_gateways, g.unregistered);
        heard = g.heard;
      }

  pub handle_connected-IsGone :
      (r : ClientRouter) → IsGone tag evs r → IsGone tag evs (handle_connected env r).1
  unfolding handle_connected
  handle_connected-IsGone r g = post-IsGone _ _ r g

module _ (env : Env) (respects : IsRespectful env) (tag : ℕ) (evs : List Event) where
  -- A call of another gateway's handler.
  pub gateway_event-IsGone :
      (t : ℕ) (w : Gateway) (e : Event) (r : ClientRouter)
      → (t == tag) ≡ false
      → IsGone tag evs r
      → IsGone tag evs (gateway_event env t w e r).1
  unfolding gateway_event events_of
  gateway_event-IsGone t w e r ne g =
      if_cases (λ (o : OptError × ClientRouter). IsGone tag evs o.1) w.has_handler
        (λ _.
          respects.keeps tag evs t e _
            (record { below = g.below; unregistered = g.unregistered; heard = rw ne g.heard }))
        (λ _. g)

  pub event_if_alive-IsGone :
      (t : ℕ) (e : Event) (r : ClientRouter)
      → (t == tag) ≡ false
      → IsGone tag evs r
      → IsGone tag evs (event_if_alive env t e r).1
  unfolding event_if_alive
  event_if_alive-IsGone t e r ne g = elim (Option-cases (lookup t r.gateways)) [
    | inl x ↦ rw (x, event_if_alive) g
    | inr (w, x) ↦ rw (x, event_if_alive) (gateway_event-IsGone t w e r ne g)
  ]

  pub event_if_registered-IsGone :
      (t : ℕ) (e : Event) (r : ClientRouter)
      → IsGone tag evs r
      → IsGone tag evs (event_if_registered env t e r).1
  unfolding event_if_registered
  event_if_registered-IsGone t e r g =
      if_cases (λ (o : OptError × ClientRouter). IsGone tag evs o.1) (is_registered_gateway r t)
        (λ h. event_if_alive-IsGone t e r (other_tag h) g) (λ _. g)
    where
      other_tag : is_registered_gateway r t ≡ true → (t == tag) ≡ false
      other_tag h = ground (arith, g.unregistered)

  pub complete_each-IsGone :
      (tags : List ℕ) (r : ClientRouter)
      → All (λ t. (t == tag) ≡ false) tags
      → IsGone tag evs r
      → IsGone tag evs (complete_each env tags r)
  unfolding complete_each
  complete_each-IsGone [] r ne g = g
  complete_each-IsGone (t ∷ tags) r ne g =
      complete_each-IsGone tags _ ne.1 (event_if_alive-IsGone t _ r ne.0 g)

  strong-ne :
      (tags : List ℕ) (r : ClientRouter)
      → All (λ t. (t == tag) ≡ false) tags
      → All (λ t. (t == tag) ≡ false) (keys (strong tags r))
  strong-ne [] r ne = tt
  strong-ne (t ∷ tags) r ne = ground (arith, strong-ne tags r ne.1, ne.0)

  pub connect_each-IsGone :
      (gs : Map Gateway) (r : ClientRouter)
      → All (λ t. (t == tag) ≡ false) (keys gs)
      → IsGone tag evs r
      → IsGone tag evs (connect_each env gs r)
  unfolding connect_each
  connect_each-IsGone [] r ne g = g
  connect_each-IsGone ((t, w) ∷ gs) r ne g =
      connect_each-IsGone gs _ ne.1 (gateway_event-IsGone t (held t w r) connected r ne.0 g)

  keys-gone :
      (r : ClientRouter) → IsGone tag evs r → All (λ t. (t == tag) ≡ false) (keys r.map_of_gateways)
  keys-gone r g = keys-ne tag r.map_of_gateways g.unregistered

  pub handle_disconnected-IsGone :
      (r : ClientRouter) → IsGone tag evs r → IsGone tag evs (handle_disconnected env r).1
  unfolding handle_disconnected lookup
  handle_disconnected-IsGone r g =
      if_cases (IsGone tag evs) r.is_connected
        (λ _.
          complete_each-IsGone (keys r.map_of_gateways) _ (keys-gone r g)
            (record { below = g.below; unregistered = refl; heard = g.heard }))
        (λ _. g)

  pub handle_route_connect-IsGone :
      (r : ClientRouter) → IsGone tag evs r → IsGone tag evs (handle_route_connect env r).1
  unfolding handle_route_connect
  handle_route_connect-IsGone r g =
      if_cases (IsGone tag evs) r.is_connected (λ _. g)
        (λ _.
          connect_each-IsGone _ _ (strong-ne (keys r.map_of_gateways) r (keys-gone r g))
            (record { below = g.below; unregistered = g.unregistered; heard = g.heard }))

  pub handle_route_channel_msg-IsGone :
      (m : ChannelMsg) (payload : Payload) (r : ClientRouter)
      → IsGone tag evs r
      → IsGone tag evs (handle_route_channel_msg env m payload r).1
  unfolding handle_route_channel_msg
  handle_route_channel_msg-IsGone m payload r g =
      elim (Option-cases (real_payload payload m.payload_size)) [
        | inl e ↦
            rw (e, handle_route_channel_msg)
              (record { below = g.below; unregistered = g.unregistered; heard = g.heard })
        | inr (real, e) ↦ rw (e, handle_route_channel_msg) (event_if_registered-IsGone m.tag _ r g)
      ]

  pub handle_route_channel_end-IsGone :
      (m : ChannelEnd) (r : ClientRouter)
      → IsGone tag evs r
      → IsGone tag evs (handle_route_channel_end env m r).1
  unfolding handle_route_channel_end
  handle_route_channel_end-IsGone m r g =
      if_cases (λ (o : OptError × ClientRouter). IsGone tag evs o.1) (find_registered r m.tag)
        (λ h. event_if_alive-IsGone m.tag _ _ (other_tag h) (
          if_cases (IsGone tag evs) m.keep_alive (λ _. g)
            (λ _. record {
              below = g.below;
              unregistered =
                  ground (arith, lookup-erase m.tag tag r.map_of_gateways, g.unregistered);
              heard = g.heard;
            })))
        (λ _. g)
    where
      other_tag : find_registered r m.tag ≡ true → (m.tag == tag) ≡ false
      other_tag h = ground (arith, g.unregistered)

  pub handle_message-IsGone :
      (payload : Payload) (r : ClientRouter)
      → IsGone tag evs r
      → IsGone tag evs (handle_message env payload r).1
  unfolding handle_message
  handle_message-IsGone payload r g = route-IsGone (env.codec.deserialize payload)
    where
      route-IsGone : (o : Option Route) → IsGone tag evs (handle_route env o payload r).1
      route-IsGone none = g
      route-IsGone (some empty) = g
      route-IsGone (some (connect c)) = handle_route_connect-IsGone r g
      route-IsGone (some (channel_msg m)) = handle_route_channel_msg-IsGone m payload r g
      route-IsGone (some (channel_end e)) = handle_route_channel_end-IsGone e r g

  pub gateway_subscribe-IsGone :
      (t : ℕ) (w : Gateway) (has_handler : Bool) (r : ClientRouter)
      → IsGone tag evs r
      → IsGone tag evs (gateway_subscribe env t w has_handler r)
  unfolding gateway_subscribe
  gateway_subscribe-IsGone t w has_handler r g =
      let g' = with_gateway-IsGone env tag evs t (record w { has_handler = has_handler }) r g in
      if_cases (IsGone tag evs) r.is_connected (λ _. event_if_registered-IsGone t connected _ g')
        (λ _. g')
