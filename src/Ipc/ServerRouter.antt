-- ===== src/Ipc/ServerRouter.antt =====
-- `ServerRouterImpl` and its gateways (src/common/ipc/server_router.cpp). A gateway is named by a
-- number of its own, as an object is by its address; `gateways` holds those alive. Event handlers,
-- channel factories, the pipe and the serializer are the environment.
pub mod Registry
pub mod Changes
pub mod Extends
pub mod Hearing
pub mod Steps
use ocvsmd.Common.{
  ℕ, ◌+◌, ◌%◌, Bool, true, false, ◌&&◌, Option, none, some, List, [], ◌∷◌, ◌==◌, if◌then◌else◌,
  has_value,
}
use ocvsmd.Common.Map.{Map, lookup, insert, emplace, erase, values}
use ocvsmd.Error.{
  OptError, error, disconnected, not_connected, shutdown, invalid_argument, opt_error_to_dsdl_error,
  dsdl_error_to_opt_error,
}
use ocvsmd.Io.SocketBuffer
use ocvsmd.Io.SocketBuffer.{Payload, SocketBuffer, prepend}
use ocvsmd.Ipc.Gateway.{Event, connected, message, completed}
use ocvsmd.Ipc.Route.{
  Route, empty, connect, channel_msg, channel_end, ChannelMsg, ChannelEnd, Codec, real_payload,
}
use ocvsmd.Ipc.ClientRouter.{u64_mod, version_major, version_minor, end_of}

-- `GatewayImpl` with its endpoint.
pub record Gateway : Type 0 where
  pub client_id : ℕ
  pub tag : ℕ
  pub next_sequence : ℕ
  pub has_handler : Bool
  pub completion_opt_error : OptError

abbrev pub new_gateway : ℕ → ℕ → Gateway
new_gateway client_id tag = record {
  client_id = client_id;
  tag = tag;
  next_sequence = 0;
  has_handler = false;
  completion_opt_error = none;
}

pub record Posted : Type 0 where
  pub client_id : ℕ
  pub route : Route
  pub buffer : SocketBuffer

-- A call of a channel factory: of which service, with which gateway and payload.
pub record Created : Type 0 where
  pub service_id : ℕ
  pub gateway : ℕ
  pub payload : Payload

-- The registered weak pointers of one client, by tag.
abbrev pub MapOfGateways : Type 0
MapOfGateways = Map ℕ

pub record ServerRouter : Type 0 where
  pub client_id_to_map_of_gateways : Map MapOfGateways
  pub service_id_to_channel_factory : Map (Unit {0})
  pub gateways : Map Gateway
  pub next_gateway : ℕ
  pub posted : List Posted
  pub events : List (ℕ × Event)
  pub created : List Created
  pub faulted : Bool

abbrev pub init : ServerRouter
init = record {
  client_id_to_map_of_gateways = [];
  service_id_to_channel_factory = [];
  gateways = [];
  next_gateway = 0;
  posted = [];
  events = [];
  created = [];
  faulted = false;
}

pub record Env : Type 0 where
  pub codec : Codec
  pub pipe_send : ServerRouter → ℕ → SocketBuffer → OptError
  pub react : ℕ → Event → ServerRouter → OptError × ServerRouter
  pub create : Created → ServerRouter → ServerRouter

unfoldable pub register_channel_factory : ℕ → ServerRouter → ServerRouter
register_channel_factory service_id r = record r {
  service_id_to_channel_factory = insert service_id tt r.service_id_to_channel_factory;
}

unfoldable pub is_connected : ServerRouter → ℕ → Bool
is_connected r client_id = has_value (lookup client_id r.client_id_to_map_of_gateways)

-- The gateway that is registered for an endpoint.
abbrev pub find_in : Option MapOfGateways → ℕ → Option ℕ
find_in none tag = none
find_in (some m) tag = lookup tag m

unfoldable pub find_gateway : ServerRouter → ℕ → ℕ → Option ℕ
find_gateway r client_id tag = find_in (lookup client_id r.client_id_to_map_of_gateways) tag

unfoldable pub is_registered_gateway : ServerRouter → ℕ → ℕ → Bool
unfolding find_gateway
is_registered_gateway r client_id tag = has_value (find_gateway r client_id tag)

abbrev pub with_gateway : ServerRouter → ℕ → Gateway → ServerRouter
with_gateway r id g = record r { gateways = insert id g r.gateways }

-- The map of one client written back, where the code holds a reference into the outer map.
abbrev pub with_map : ServerRouter → ℕ → MapOfGateways → ServerRouter
with_map r client_id m = record r {
  client_id_to_map_of_gateways = insert client_id m r.client_id_to_map_of_gateways;
}

-- Locking the registered weak pointer: its number, if the gateway is alive.
abbrev pub lock : Option ℕ → ServerRouter → Option ℕ
lock none r = none
lock (some id) r = if has_value (lookup id r.gateways) then some id else none

module _ (env : Env) where
  -- `tryPerformOnSerialized` with the pipe's `send` to a client.
  unfoldable pub post : ℕ → Route → SocketBuffer → ServerRouter → OptError × ServerRouter
  post client_id route sock_buff r = elim (env.codec.serialize route) [
    | none ↦ (some (error invalid_argument), r)
    | some bs ↦
        let b = prepend bs sock_buff in
        (
          env.pipe_send r client_id b,
          record r {
            posted = record { client_id = client_id; route = route; buffer = b } ∷ r.posted;
          },
        )
  ]

  -- `GatewayImpl::send`, of a gateway that is alive.
  unfoldable pub gateway_send :
      ℕ → Gateway → ℕ → SocketBuffer → ServerRouter → OptError × ServerRouter
  unfolding is_connected is_registered_gateway post
  gateway_send id g service_id sock_buff r =
      if is_connected r g.client_id
      then if is_registered_gateway r g.client_id g.tag
        then post g.client_id
            (channel_msg (record {
              tag = g.tag;
              sequence = g.next_sequence;
              service_id = service_id;
              payload_size = sock_buff.size;
            }))
            sock_buff
            (with_gateway r id (record g { next_sequence = (g.next_sequence + 1) % u64_mod }))
        else (some (error shutdown), r)
      else (some (error not_connected), r)

  -- `GatewayImpl::complete`, of a gateway that is alive.
  unfoldable pub gateway_complete :
      ℕ → Gateway → OptError → Bool → ServerRouter → OptError × ServerRouter
  unfolding is_connected is_registered_gateway post
  gateway_complete id g opt_error keep_alive r =
      if is_connected r g.client_id
      then if is_registered_gateway r g.client_id g.tag
        then post g.client_id (end_of g.tag keep_alive opt_error) SocketBuffer.empty
            (with_gateway r id (record g { completion_opt_error = opt_error }))
        else (none, r)
      else (some (error not_connected), r)

  -- `GatewayImpl::event`.
  unfoldable pub gateway_event : ℕ → Gateway → Event → ServerRouter → OptError × ServerRouter
  gateway_event id g ev r =
      if g.has_handler
      then env.react id ev (record r { events = (id, ev) ∷ r.events })
      else (none, r)

  -- `event` on the gateway that a weak pointer locks, if it does.
  unfoldable pub event_if_alive : ℕ → Event → ServerRouter → OptError × ServerRouter
  unfolding gateway_event
  event_if_alive id ev r = elim (lookup id r.gateways) [
    | none ↦ (none, r)
    | some g ↦ gateway_event id g ev r
  ]

  -- `findAndActOnRegisteredGateway` with an event as the action.
  unfoldable pub event_if_registered : ℕ → ℕ → Event → ServerRouter → OptError × ServerRouter
  unfolding find_gateway event_if_alive
  event_if_registered client_id tag ev r = elim (find_gateway r client_id tag) [
    | none ↦ (none, r)
    | some id ↦ event_if_alive id ev r
  ]

  -- `GatewayImpl::subscribe` and `onGatewaySubscription`.
  unfoldable pub gateway_subscribe : ℕ → Gateway → Bool → ServerRouter → ServerRouter
  unfolding is_connected event_if_registered
  gateway_subscribe id g has_handler r =
      let r' = with_gateway r id (record g { has_handler = has_handler }) in
      if is_connected r g.client_id
      then (event_if_registered g.client_id g.tag connected r').1
      else r'

  abbrev pub dispose_in : Option MapOfGateways → Gateway → ServerRouter → ServerRouter
  dispose_in none g r = r
  dispose_in (some m) g r =
      let r' = with_map r g.client_id (erase g.tag m) in
      if has_value (lookup g.tag m)
      then (post g.client_id (end_of g.tag false g.completion_opt_error) SocketBuffer.empty r').1
      else r'

  -- `~GatewayImpl` and `onGatewayDisposal`. The client's map is there, so it is connected.
  unfoldable pub gateway_dispose : ℕ → Gateway → ServerRouter → ServerRouter
  unfolding post
  gateway_dispose id g r =
      dispose_in (lookup g.client_id r.client_id_to_map_of_gateways) g
        (record r { gateways = erase id r.gateways })

  -- The pipe is connected: nothing to do before the negotiation.
  unfoldable pub handle_connected : ℕ → ServerRouter → OptError × ServerRouter
  handle_connected client_id r = (none, r)

  unfoldable pub complete_each : List ℕ → ServerRouter → ServerRouter
  unfolding event_if_alive
  complete_each [] r = r
  complete_each (id ∷ ids) r =
      complete_each ids (event_if_alive id (completed (some (error disconnected)) false) r).1

  abbrev pub disconnect_in : Option MapOfGateways → ℕ → ServerRouter → ServerRouter
  disconnect_in none client_id r = r
  disconnect_in (some m) client_id r =
      complete_each (values m)
        (record r { client_id_to_map_of_gateways = erase client_id r.client_id_to_map_of_gateways })

  unfoldable pub handle_disconnected : ℕ → ServerRouter → OptError × ServerRouter
  unfolding complete_each
  handle_disconnected client_id r =
      (none, disconnect_in (lookup client_id r.client_id_to_map_of_gateways) client_id r)

  -- The client counts as connected only if the reply went out.
  unfoldable pub handle_route_connect : ℕ → ServerRouter → OptError × ServerRouter
  unfolding post
  handle_route_connect client_id r =
      let (opt_error, r') =
        post client_id
          (connect (record {
            major = version_major;
            minor = version_minor;
            error = opt_error_to_dsdl_error none;
          }))
          SocketBuffer.empty r in
      (
        opt_error,
        if has_value opt_error then r' else record r' {
          client_id_to_map_of_gateways = emplace client_id [] r'.client_id_to_map_of_gateways;
        },
      )

  -- A first message of a known service: a new gateway, and the service's factory.
  unfoldable pub create_channel :
      ℕ → MapOfGateways → ChannelMsg → Payload → ServerRouter → ServerRouter
  create_channel client_id m msg real r =
      let id = r.next_gateway in
      let new : Created = record { service_id = msg.service_id; gateway = id; payload = real } in
      env.create new (record r {
        client_id_to_map_of_gateways =
            insert client_id (insert msg.tag id m) r.client_id_to_map_of_gateways;
        gateways = insert id (new_gateway client_id msg.tag) r.gateways;
        next_gateway = id + 1;
        created = new ∷ r.created;
      })

  -- No gateway took the message.
  unfoldable pub unclaimed :
      ℕ → MapOfGateways → ChannelMsg → Payload → ServerRouter → OptError × ServerRouter
  unfolding create_channel
  unclaimed client_id m msg real r = (
    none,
    if msg.sequence == 0 && has_value (lookup msg.service_id r.service_id_to_channel_factory)
        then create_channel client_id m msg real r
        else r,
  )

  abbrev pub deliver :
      Option ℕ → ℕ → MapOfGateways → ChannelMsg → Payload → ServerRouter → OptError × ServerRouter
  deliver (some id) client_id m msg real r = event_if_alive id (message msg.sequence real) r
  deliver none client_id m msg real r = unclaimed client_id m msg real r

  abbrev pub dispatch :
      Option MapOfGateways → ℕ → ChannelMsg → Payload → ServerRouter → OptError × ServerRouter
  dispatch none client_id msg real r = (none, r)
  dispatch (some m) client_id msg real r =
      deliver (lock (lookup msg.tag m) r) client_id m msg real r

  unfoldable pub handle_route_channel_msg :
      ℕ → ChannelMsg → Payload → ServerRouter → OptError × ServerRouter
  unfolding real_payload unclaimed event_if_alive
  handle_route_channel_msg client_id msg payload r = elim (real_payload payload msg.payload_size) [
    | none ↦ (none, record r { faulted = true })
    | some real ↦ dispatch (lookup client_id r.client_id_to_map_of_gateways) client_id msg real r
  ]

  abbrev pub end_of_locked :
      Option ℕ → ℕ → MapOfGateways → ChannelEnd → ServerRouter → OptError × ServerRouter
  end_of_locked none client_id m msg r = (none, r)
  end_of_locked (some id) client_id m msg r =
      event_if_alive id (completed (dsdl_error_to_opt_error msg.error) msg.keep_alive)
        (if msg.keep_alive then r else with_map r client_id (erase msg.tag m))

  abbrev pub end_in : Option MapOfGateways → ℕ → ChannelEnd → ServerRouter → OptError × ServerRouter
  end_in none client_id msg r = (none, r)
  end_in (some m) client_id msg r = end_of_locked (lock (lookup msg.tag m) r) client_id m msg r

  -- A final end takes the gateway off the client's map before it is told.
  unfoldable pub handle_route_channel_end : ℕ → ChannelEnd → ServerRouter → OptError × ServerRouter
  unfolding event_if_alive
  handle_route_channel_end client_id msg r =
      end_in (lookup client_id r.client_id_to_map_of_gateways) client_id msg r

  abbrev pub handle_route : Option Route → ℕ → Payload → ServerRouter → OptError × ServerRouter
  handle_route none client_id payload r = (some (error invalid_argument), r)
  handle_route (some empty) client_id payload r = (some (error invalid_argument), r)
  handle_route (some (connect c)) client_id payload r = handle_route_connect client_id r
  handle_route (some (channel_msg m)) client_id payload r =
      handle_route_channel_msg client_id m payload r
  handle_route (some (channel_end e)) client_id payload r = handle_route_channel_end client_id e r

  -- A message of a client from the pipe.
  unfoldable pub handle_message : ℕ → Payload → ServerRouter → OptError × ServerRouter
  handle_message client_id payload r =
      handle_route (env.codec.deserialize payload) client_id payload r
