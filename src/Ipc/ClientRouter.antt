-- ===== src/Ipc/ClientRouter.antt =====
-- `ClientRouterImpl` and its gateways (src/common/ipc/client_router.cpp). A gateway is named by its
-- tag. The map of weak pointers holds the tags that are registered; `gateways` holds the objects
-- that are alive, so that locking a weak pointer is a lookup there. Event handlers, the pipe and the
-- serializer are the environment: a handler may do anything to the router while it runs.
pub mod Silence
pub mod Steps
pub mod Sequence
pub mod Numbers
use ocvsmd.Common.{
  ℕ, ◌+◌, ◌%◌, ◌^◌, Bool, true, false, ◌&&◌, Option, none, some, List, [], ◌∷◌, ltb, ◌==◌,
  if◌then◌else◌, has_value,
}
use ocvsmd.Common.Map.{Map, lookup, insert, erase, keys}
use ocvsmd.Error.{
  OptError, error, disconnected, not_connected, shutdown, invalid_argument, DsdlError,
  opt_error_to_dsdl_error, dsdl_error_to_opt_error,
}
use ocvsmd.Common.Int.{pos}
use ocvsmd.Io.SocketBuffer.{Payload, SocketBuffer, prepend, of_payload}
use ocvsmd.Io.SocketBuffer
use ocvsmd.Ipc.Gateway.{Event, connected, message, completed}
use ocvsmd.Ipc.Route.{
  Route, empty, connect, channel_msg, channel_end, ChannelMsg, ChannelEnd, Codec, real_payload,
}

abbrev pub u64_mod : ℕ
u64_mod = 2 ^ 64

abbrev pub version_major : ℕ
version_major = 0

abbrev pub version_minor : ℕ
version_minor = 1

-- `GatewayImpl`; `has_handler` says whether an event handler is set.
pub record Gateway : Type 0 where
  pub next_sequence : ℕ
  pub has_handler : Bool
  pub completion_opt_error : OptError

abbrev pub new_gateway : Gateway
new_gateway = record { next_sequence = 0; has_handler = false; completion_opt_error = none }

-- A message given to the pipe, with the buffer that carries it.
pub record Posted : Type 0 where
  pub route : Route
  pub buffer : SocketBuffer

-- The router's fields, the gateways alive, and two histories, newest first: what went to the pipe,
-- and which handler was called with which event. `faulted` is set by undefined behaviour.
pub record ClientRouter : Type 0 where
  pub next_tag : ℕ
  pub is_connected : Bool
  pub map_of_gateways : Map (Unit {0})
  pub gateways : Map Gateway
  pub posted : List Posted
  pub events : List (ℕ × Event)
  pub faulted : Bool

abbrev pub init : ClientRouter
init = record {
  next_tag = 0;
  is_connected = false;
  map_of_gateways = [];
  gateways = [];
  posted = [];
  events = [];
  faulted = false;
}

pub record Env : Type 0 where
  pub codec : Codec
  pub pipe_send : ClientRouter → SocketBuffer → OptError
  pub react : ℕ → Event → ClientRouter → OptError × ClientRouter

unfoldable pub make_gateway : ClientRouter → ℕ × ClientRouter
make_gateway r = (
  r.next_tag,
  record r {
    next_tag = (r.next_tag + 1) % u64_mod;
    map_of_gateways = insert r.next_tag tt r.map_of_gateways;
    gateways = insert r.next_tag new_gateway r.gateways;
  },
)

unfoldable pub is_registered_gateway : ClientRouter → ℕ → Bool
is_registered_gateway r tag = has_value (lookup tag r.map_of_gateways)

-- `lock` of the registered weak pointer: the gateway, if it is registered and alive.
unfoldable pub find_registered : ClientRouter → ℕ → Bool
unfolding is_registered_gateway
find_registered r tag = is_registered_gateway r tag && has_value (lookup tag r.gateways)

abbrev pub with_gateway : ClientRouter → ℕ → Gateway → ClientRouter
with_gateway r tag g = record r { gateways = insert tag g r.gateways }

abbrev pub end_of : ℕ → Bool → OptError → Route
end_of tag keep_alive opt_error =
    channel_end
      (record { tag = tag; keep_alive = keep_alive; error = opt_error_to_dsdl_error opt_error })

-- `forEachRegisteredGateway`: strong pointers are taken before the first call, and keep the
-- gateways alive while the loop runs.
abbrev pub strong : List ℕ → ClientRouter → Map Gateway
strong [] r = []
strong (tag ∷ tags) r =
    let rest = strong tags r in
    elim (lookup tag r.gateways) [ none ↦ rest | some g ↦ (tag, g) ∷ rest ]

-- A gateway through a strong pointer: as it is now, or as it was when only the pointer is left.
abbrev pub held : ℕ → Gateway → ClientRouter → Gateway
held tag g r = elim (lookup tag r.gateways) [ none ↦ g | some now ↦ now ]

module _ (env : Env) where
  -- `tryPerformOnSerialized` with the pipe's `send`: the serialized route goes in front.
  unfoldable pub post : Route → SocketBuffer → ClientRouter → OptError × ClientRouter
  post route sock_buff r = elim (env.codec.serialize route) [
    | none ↦ (some (error invalid_argument), r)
    | some bs ↦
        let b = prepend bs sock_buff in
        (env.pipe_send r b, record r { posted = record { route = route; buffer = b } ∷ r.posted })
  ]

  -- `GatewayImpl::send`, of a gateway that is alive.
  unfoldable pub gateway_send :
      ℕ → Gateway → ℕ → SocketBuffer → ClientRouter → OptError × ClientRouter
  unfolding is_registered_gateway post
  gateway_send tag g service_id sock_buff r =
      if r.is_connected
      then if is_registered_gateway r tag
        then post
            (channel_msg (record {
              tag = tag;
              sequence = g.next_sequence;
              service_id = service_id;
              payload_size = sock_buff.size;
            }))
            sock_buff
            (with_gateway r tag (record g { next_sequence = (g.next_sequence + 1) % u64_mod }))
        else (some (error shutdown), r)
      else (some (error not_connected), r)

  -- `GatewayImpl::complete`, of a gateway that is alive.
  unfoldable pub gateway_complete :
      ℕ → Gateway → OptError → Bool → ClientRouter → OptError × ClientRouter
  unfolding is_registered_gateway post
  gateway_complete tag g opt_error keep_alive r =
      let r' = with_gateway r tag (record g { completion_opt_error = opt_error }) in
      if r.is_connected
      then if is_registered_gateway r tag
        then if g.next_sequence == 0
          then (none, r')
          else post (end_of tag keep_alive opt_error) SocketBuffer.empty r'
        else (none, r)
      else (some (error not_connected), r)

  -- `GatewayImpl::event`.
  unfoldable pub gateway_event : ℕ → Gateway → Event → ClientRouter → OptError × ClientRouter
  gateway_event tag g ev r =
      if g.has_handler
      then env.react tag ev (record r { events = (tag, ev) ∷ r.events })
      else (none, r)

  -- `event` on the gateway that a weak pointer locks, if it does.
  unfoldable pub event_if_alive : ℕ → Event → ClientRouter → OptError × ClientRouter
  unfolding gateway_event
  event_if_alive tag ev r = elim (lookup tag r.gateways) [
    | none ↦ (none, r)
    | some g ↦ gateway_event tag g ev r
  ]

  -- `findAndActOnRegisteredGateway` with an event as the action.
  unfoldable pub event_if_registered : ℕ → Event → ClientRouter → OptError × ClientRouter
  unfolding is_registered_gateway event_if_alive
  event_if_registered tag ev r =
      if is_registered_gateway r tag then event_if_alive tag ev r else (none, r)

  -- `GatewayImpl::subscribe` and `onGatewaySubscription`.
  unfoldable pub gateway_subscribe : ℕ → Gateway → Bool → ClientRouter → ClientRouter
  unfolding event_if_registered
  gateway_subscribe tag g has_handler r =
      let r' = with_gateway r tag (record g { has_handler = has_handler }) in
      if r.is_connected then (event_if_registered tag connected r').1 else r'

  -- `~GatewayImpl` and `onGatewayDisposal`.
  unfoldable pub gateway_dispose : ℕ → Gateway → ClientRouter → ClientRouter
  unfolding is_registered_gateway post
  gateway_dispose tag g r =
      let r' = record r {
        map_of_gateways = erase tag r.map_of_gateways;
        gateways = erase tag r.gateways;
      } in
      if is_registered_gateway r tag && (ltb 0 g.next_sequence && r.is_connected)
      then (post (end_of tag false g.completion_opt_error) SocketBuffer.empty r').1
      else r'

  -- The pipe is connected: the negotiation begins.
  unfoldable pub handle_connected : ClientRouter → OptError × ClientRouter
  unfolding post
  handle_connected r =
      post
        (connect (record {
          major = version_major;
          minor = version_minor;
          error = record { error_code = 0; raw_errno = pos 0 };
        }))
        SocketBuffer.empty r

  -- The loop of `handlePipeEvent(Disconnected)`: weak pointers are locked one by one.
  unfoldable pub complete_each : List ℕ → ClientRouter → ClientRouter
  unfolding event_if_alive
  complete_each [] r = r
  complete_each (tag ∷ tags) r =
      complete_each tags (event_if_alive tag (completed (some (error disconnected)) false) r).1

  unfoldable pub handle_disconnected : ClientRouter → OptError × ClientRouter
  unfolding complete_each
  handle_disconnected r = (
    none,
    if r.is_connected
        then complete_each (keys r.map_of_gateways)
            (record r { is_connected = false; map_of_gateways = [] })
        else r,
  )

  unfoldable pub connect_each : Map Gateway → ClientRouter → ClientRouter
  unfolding gateway_event
  connect_each [] r = r
  connect_each ((tag, g) ∷ rest) r =
      connect_each rest (gateway_event tag (held tag g r) connected r).1

  unfoldable pub handle_route_connect : ClientRouter → OptError × ClientRouter
  unfolding connect_each
  handle_route_connect r = (
    none,
    if r.is_connected
        then r
        else connect_each (strong (keys r.map_of_gateways) r) (record r { is_connected = true }),
  )

  unfoldable pub handle_route_channel_msg :
      ChannelMsg → Payload → ClientRouter → OptError × ClientRouter
  unfolding event_if_registered real_payload
  handle_route_channel_msg msg payload r = elim (real_payload payload msg.payload_size) [
    | none ↦ (none, record r { faulted = true })
    | some real ↦ event_if_registered msg.tag (message msg.sequence real) r
  ]

  -- A final end takes the gateway off the map before it is told.
  unfoldable pub handle_route_channel_end : ChannelEnd → ClientRouter → OptError × ClientRouter
  unfolding event_if_alive find_registered
  handle_route_channel_end msg r =
      let r' =
        if msg.keep_alive
        then r
        else record r { map_of_gateways = erase msg.tag r.map_of_gateways } in
      if find_registered r msg.tag
      then event_if_alive msg.tag (completed (dsdl_error_to_opt_error msg.error) msg.keep_alive) r'
      else (none, r)

  abbrev pub handle_route : Option Route → Payload → ClientRouter → OptError × ClientRouter
  handle_route none payload r = (some (error invalid_argument), r)
  handle_route (some empty) payload r = (some (error invalid_argument), r)
  handle_route (some (connect c)) payload r = handle_route_connect r
  handle_route (some (channel_msg m)) payload r = handle_route_channel_msg m payload r
  handle_route (some (channel_end e)) payload r = handle_route_channel_end e r

  -- A message from the pipe.
  unfoldable pub handle_message : Payload → ClientRouter → OptError × ClientRouter
  handle_message payload r = handle_route (env.codec.deserialize payload) payload r
