-- ===== src/Ipc/Transit.antt =====
-- A message on its way from a gateway of the client router to the server router
-- (src/common/ipc/client_router.cpp, server_router.cpp).
use ocvsmd.Common.{ℕ, ◌+◌, ◌≡◌, refl, ap, ◌∙◌, true, none, some, List, ◌∷◌, ◌++◌}
use ocvsmd.Common.Map.{lookup, insert}
use ocvsmd.Io.SocketBuffer
use ocvsmd.Io.SocketBuffer.{Payload, SocketBuffer, bytes, prepend, bytes-prepend}
use ocvsmd.Ipc.Gateway.{message}
use ocvsmd.Ipc.Route.{Route, channel_msg, ChannelMsg, IsFaithful, real_payload-append}
use ocvsmd.Ipc.ClientRouter
use ocvsmd.Ipc.ClientRouter.{ClientRouter, u64_mod}
use ocvsmd.Ipc.ServerRouter
use ocvsmd.Ipc.ServerRouter.Hearing.{event_if_alive-heard}
use ocvsmd.Ipc.ServerRouter.{
  ServerRouter, MapOfGateways, dispatch, deliver, lock, handle_message, handle_route_channel_msg,
  unclaimed, create_channel, event_if_alive, gateway_event, Created, new_gateway,
}

-- The routing header of a gateway's next message.
abbrev pub next_msg : ℕ → ClientRouter.Gateway → ℕ → SocketBuffer → ChannelMsg
next_msg tag g service_id b = record {
  tag = tag;
  sequence = g.next_sequence;
  service_id = service_id;
  payload_size = b.size;
}

locked :
    (s : ServerRouter) (m : MapOfGateways) (tag id : ℕ) (h : ServerRouter.Gateway)
    → lookup tag m ≡ some id
    → lookup id s.gateways ≡ some h
    → lock (lookup tag m) s ≡ some id
locked s m tag id h found alive = rw (found, alive)

module _ (cl : ClientRouter.Env) (sv : ServerRouter.Env) (same : sv.codec ≡ cl.codec)
    (faithful : IsFaithful cl.codec) where
  deserialized :
      (route : Route) (bs rest : List ℕ)
      → cl.codec.serialize route ≡ some bs
      → sv.codec.deserialize (bs ++ rest) ≡ some route
  deserialized route bs rest e = rw same (faithful.reads_back route bs rest e)

  arrives :
      (msg : ChannelMsg) (bs : List ℕ) (b : SocketBuffer) (client_id : ℕ) (s : ServerRouter)
      → SocketBuffer.IsValid b
      → msg.payload_size ≡ b.size
      → cl.codec.serialize (channel_msg msg) ≡ some bs
      → handle_message sv client_id (bytes (prepend bs b)) s
        ≡ dispatch sv (lookup client_id s.client_id_to_map_of_gateways) client_id msg (bytes b) s
  unfolding handle_message handle_route_channel_msg bytes
  arrives msg bs b client_id s v size e =
      rw (bytes-prepend bs b, deserialized (channel_msg msg) bs (bytes b) e)
        (rw (
          real_payload-append bs (bytes b) msg.payload_size (size ∙ v.sized),
          handle_route_channel_msg,
        ))

  module _ (tag : ℕ) (g : ClientRouter.Gateway) (service_id : ℕ) (b : SocketBuffer)
      (r : ClientRouter) (bs : List ℕ) (client_id : ℕ) (s : ServerRouter) (m : MapOfGateways)
      (valid : SocketBuffer.IsValid b) (online : r.is_connected ≡ true)
      (registered : ClientRouter.is_registered_gateway r tag ≡ true)
      (serialized : cl.codec.serialize (channel_msg (next_msg tag g service_id b)) ≡ some bs)
      (known : lookup client_id s.client_id_to_map_of_gateways ≡ some m) where
    posts :
        (ClientRouter.gateway_send cl tag g service_id b r).1.posted
        ≡ record { route = channel_msg (next_msg tag g service_id b); buffer = prepend bs b }
          ∷ r.posted
    unfolding ClientRouter.gateway_send ClientRouter.post
    posts = rw (online, registered, serialized, ClientRouter.post)

    routed :
        handle_message sv client_id (bytes (prepend bs b)) s
        ≡ dispatch sv (some m) client_id (next_msg tag g service_id b) (bytes b) s
    routed =
        arrives (next_msg tag g service_id b) bs b client_id s valid refl serialized
        ∙ ap (λ o. dispatch sv o client_id (next_msg tag g service_id b) (bytes b) s) known

    -- A message that a connected and registered client gateway sends posts one buffer, and when the
    -- server router gets the bytes of that buffer from this client, and has for the tag a gateway
    -- that is alive and listened to, that gateway's handler is called with the sequence number and
    -- exactly the bytes of the message. The generated serializer is taken to read back what it
    -- writes, whatever follows, and both routers to use the same.
    pub send-heard :
        (id : ℕ) (h : ServerRouter.Gateway)
        → lookup tag m ≡ some id
        → lookup id s.gateways ≡ some h
        → h.has_handler ≡ true
        → (p : ClientRouter.Posted) × ((ClientRouter.gateway_send cl tag g service_id b r).1.posted
            ≡ p ∷ r.posted)
          × (handle_message sv client_id (bytes p.buffer) s
              ≡ sv.react id
                  (message g.next_sequence (bytes b))
                  (record s { events = (id, message g.next_sequence (bytes b)) ∷ s.events }))
    send-heard id h found alive listens = (
      record { route = channel_msg (next_msg tag g service_id b); buffer = prepend bs b },
      posts,
      routed
          ∙ ap (λ o. deliver sv o client_id m (next_msg tag g service_id b) (bytes b) s)
              (locked s m tag id h found alive)
          ∙ event_if_alive-heard sv id (message g.next_sequence (bytes b)) s h alive listens,
    )

    -- A gateway's first message, of a service that the server knows, under a tag that the server
    -- has not registered for this client: the server makes a new gateway, registers it under the
    -- tag, and calls the service's factory once, with exactly the bytes of the message.
    pub first_send-creates :
        lookup tag m ≡ none
        → g.next_sequence ≡ 0
        → lookup service_id s.service_id_to_channel_factory ≡ some tt
        → (p : ClientRouter.Posted) × ((ClientRouter.gateway_send cl tag g service_id b r).1.posted
            ≡ p ∷ r.posted)
          × (handle_message sv client_id (bytes p.buffer) s ≡ (
            none,
            sv.create
                (record { service_id = service_id; gateway = s.next_gateway; payload = bytes b })
                (record s {
                  client_id_to_map_of_gateways =
                      insert client_id (insert tag s.next_gateway m) s.client_id_to_map_of_gateways;
                  gateways = insert s.next_gateway (new_gateway client_id tag) s.gateways;
                  next_gateway = s.next_gateway + 1;
                  created =
                      record {
                        service_id = service_id;
                        gateway = s.next_gateway;
                        payload = bytes b;
                      }
                      ∷ s.created;
                }),
          ))
    unfolding unclaimed create_channel
    first_send-creates unknown first service = (
      record { route = channel_msg (next_msg tag g service_id b); buffer = prepend bs b },
      posts,
      routed
          ∙ ap (λ o. deliver sv (lock o s) client_id m (next_msg tag g service_id b) (bytes b) s)
              unknown
          ∙ rw (first, service),
    )
