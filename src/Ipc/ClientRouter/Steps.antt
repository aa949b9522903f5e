-- ===== src/Ipc/ClientRouter/Steps.antt =====
-- The client router as a state machine: every way in which its state changes, in any order
-- (src/common/ipc/client_router.cpp).
use ocvsmd.Common.{ℕ, ◌+◌, ◌<◌, ◌≡◌, Bool, true, false, some, List, ◌∷◌, ◌∙◌, ==_refl}
use ocvsmd.Common.Map.{lookup, erase, lookup-erase}
use ocvsmd.Error.{OptError, dsdl_error_to_opt_error}
use ocvsmd.Io.SocketBuffer.{Payload, SocketBuffer}
use ocvsmd.Ipc.Gateway.{Event, completed}
use ocvsmd.Ipc.Route.{ChannelEnd}
use ocvsmd.Ipc.ClientRouter.{
  u64_mod, Gateway, ClientRouter, Env, make_gateway, is_registered_gateway, find_registered,
  gateway_send, gateway_complete, gateway_event, event_if_alive, gateway_subscribe, gateway_dispose,
  handle_connected, handle_disconnected, handle_message, handle_route_channel_end,
}
use ocvsmd.Ipc.ClientRouter.Silence.{
  events_of, IsGone, IsRespectful, make_gateway-IsGone, gateway_send-IsGone,
  gateway_complete-IsGone, gateway_subscribe-IsGone, gateway_dispose-IsGone,
  handle_connected-IsGone, handle_disconnected-IsGone, handle_message-IsGone,
}

-- An operation of a gateway is one of an object that is alive. No more tags are given out than a
-- 64-bit counter has.
pub data Step (env : Env) (r : ClientRouter) : ClientRouter → Type 0 where
  makes : r.next_tag + 1 < u64_mod → Step env r (make_gateway r).1
  sends :
      (t : ℕ) (g : Gateway) (id : ℕ) (b : SocketBuffer)
      → lookup t r.gateways ≡ some g
      → Step env r (gateway_send env t g id b r).1
  completes :
      (t : ℕ) (g : Gateway) (e : OptError) (keep_alive : Bool)
      → lookup t r.gateways ≡ some g
      → Step env r (gateway_complete env t g e keep_alive r).1
  subscribes :
      (t : ℕ) (g : Gateway) (has_handler : Bool)
      → lookup t r.gateways ≡ some g
      → Step env r (gateway_subscribe env t g has_handler r)
  disposes :
      (t : ℕ) (g : Gateway) → lookup t r.gateways ≡ some g → Step env r (gateway_dispose env t g r)
  pipe_connects : Step env r (handle_connected env r).1
  pipe_disconnects : Step env r (handle_disconnected env r).1
  receives : (payload : Payload) → Step env r (handle_message env payload r).1

pub data Reach (env : Env) (r : ClientRouter) : ClientRouter → Type 0 where
  here : Reach env r r
  next : {s t : ClientRouter} → Reach env r s → Step env s t → Reach env r t

module _ (env : Env) (respects : IsRespectful env) (tag : ℕ) (evs : List Event) where
  Step-IsGone : {r s : ClientRouter} → Step env r s → IsGone tag evs r → IsGone tag evs s
  Step-IsGone {r} (makes room) g = make_gateway-IsGone tag evs r room g
  Step-IsGone {r} (sends t w id b e) g = gateway_send-IsGone env tag evs t w id b r g
  Step-IsGone {r} (completes t w e k x) g = gateway_complete-IsGone env tag evs t w e k r g
  Step-IsGone {r} (subscribes t w h x) g = gateway_subscribe-IsGone env respects tag evs t w h r g
  Step-IsGone {r} (disposes t w x) g = gateway_dispose-IsGone env tag evs t w r g
  Step-IsGone {r} pipe_connects g = handle_connected-IsGone env tag evs r g
  Step-IsGone {r} pipe_disconnects g = handle_disconnected-IsGone env respects tag evs r g
  Step-IsGone {r} (receives payload) g = handle_message-IsGone env respects tag evs payload r g

  Reach-IsGone : {r s : ClientRouter} → Reach env r s → IsGone tag evs r → IsGone tag evs s
  Reach-IsGone here g = g
  Reach-IsGone (next p st) g = Step-IsGone st (Reach-IsGone p g)

module _ (env : Env) where
  -- A gateway that is alive and listened to hears an event.
  pub event_if_alive-heard :
      (t : ℕ) (e : Event) (r : ClientRouter) (g : Gateway)
      → lookup t r.gateways ≡ some g
      → g.has_handler ≡ true
      → event_if_alive env t e r ≡ env.react t e (record r { events = (t, e) ∷ r.events })
  unfolding event_if_alive gateway_event
  event_if_alive-heard t e r g alive heard = rw (alive, event_if_alive, heard)

  ended :
      (m : ChannelEnd) (r : ClientRouter) (g : Gateway)
      → m.keep_alive ≡ false
      → is_registered_gateway r m.tag ≡ true
      → lookup m.tag r.gateways ≡ some g
      → g.has_handler ≡ true
      → handle_route_channel_end env m r
        ≡ env.react m.tag (completed (dsdl_error_to_opt_error m.error) false) (record r {
          map_of_gateways = erase m.tag r.map_of_gateways;
          events = (m.tag, completed (dsdl_error_to_opt_error m.error) false) ∷ r.events;
        })
  unfolding handle_route_channel_end find_registered
  ended m r g final reg alive heard =
      rw (final, reg, alive)
        (event_if_alive-heard m.tag (completed (dsdl_error_to_opt_error m.error) false)
          (record r { map_of_gateways = erase m.tag r.map_of_gateways }) g alive heard)

module _ (env : Env) (respects : IsRespectful env) where
  -- The state just before the handler hears a final end.
  told :
      (m : ChannelEnd) (r : ClientRouter) (g : Gateway)
      → m.keep_alive ≡ false
      → m.tag < r.next_tag
      → is_registered_gateway r m.tag ≡ true
      → lookup m.tag r.gateways ≡ some g
      → g.has_handler ≡ true
      → IsGone m.tag
          (completed (dsdl_error_to_opt_error m.error) false ∷ events_of m.tag r.events)
          (handle_route_channel_end env m r).1
  unfolding events_of
  told m r g final below reg alive heard =
      let ev = completed (dsdl_error_to_opt_error m.error) false in
      rw (ended env m r g final reg alive heard) (
        respects.keeps m.tag _ m.tag ev _ (record {
          below = below;
          unregistered = lookup-erase m.tag m.tag r.map_of_gateways ∙ rw (==_refl m.tag);
          heard = rw (==_refl m.tag);
        }))

  -- After the peer's final end of a channel that is registered, alive and listened to, its handler
  -- has heard that completion as the newest event, and hears nothing ever again: whatever is done
  -- with the router afterwards, in any order, its events stay these. Handlers are taken to keep
  -- what the router's operations keep.
  pub final_end_is_last :
      (m : ChannelEnd) (r s : ClientRouter) (g : Gateway)
      → m.keep_alive ≡ false
      → m.tag < r.next_tag
      → is_registered_gateway r m.tag ≡ true
      → lookup m.tag r.gateways ≡ some g
      → g.has_handler ≡ true
      → Reach env (handle_route_channel_end env m r).1 s
      → events_of m.tag s.events
        ≡ completed (dsdl_error_to_opt_error m.error) false ∷ events_of m.tag r.events
  final_end_is_last m r s g final below reg alive heard path =
      (Reach-IsGone env respects m.tag _ path (told m r g final below reg alive heard)).heard
