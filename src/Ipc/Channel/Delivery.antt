-- ===== src/Ipc/Channel/Delivery.antt =====
-- A message on its way from a client's channel to the server's (src/common/ipc/channel.hpp).
use ocvsmd.Common.{ℕ, ◌≡◌, refl, sym, ap, ◌∙◌, subst, true, none, some, List, ◌∷◌, ◌++◌}
use ocvsmd.Common.Map.{lookup}
use ocvsmd.Error.{OptError}
use ocvsmd.Io.SocketBuffer
use ocvsmd.Io.SocketBuffer.{Payload, SocketBuffer, prepend, bytes, bytes-prepend, prepend_lem}
use ocvsmd.Ipc.Gateway
use ocvsmd.Ipc.Route.{channel_msg, IsFaithful}
use ocvsmd.Ipc.ClientRouter
use ocvsmd.Ipc.ClientRouter.{ClientRouter}
use ocvsmd.Ipc.ServerRouter
use ocvsmd.Ipc.ServerRouter.{ServerRouter, MapOfGateways}
use ocvsmd.Ipc.Transit.{next_msg, send-heard}
use ocvsmd.Ipc.Channel.{MsgCodec, IsReadBack, input, channel_send, adapt, read_input}

module _ {A : Type 0} (codec : MsgCodec A) (read_back : IsReadBack codec) where
  adapted :
      (sequence : ℕ) (a : A) (bs rest : List ℕ)
      → codec.serialize a ≡ some bs
      → adapt codec (Gateway.message sequence (bs ++ rest)) ≡ (none, some (input a (bs ++ rest)))
  unfolding adapt
  adapted sequence a bs rest e =
      ap (λ o. read_input codec o (bs ++ rest)) (read_back.reads_back a bs rest e)

  sends :
      (cl : ClientRouter.Env) (tag : ℕ) (g : ClientRouter.Gateway) (service_id : ℕ) (a : A)
      (b : SocketBuffer) (r : ClientRouter) (bs : List ℕ)
      → codec.serialize a ≡ some bs
      → channel_send codec cl tag g service_id a b r
        ≡ ClientRouter.gateway_send cl tag g service_id (prepend bs b) r
  unfolding channel_send
  sends cl tag g service_id a b r bs e = rw (e, channel_send) refl

  -- A message that is sent on a connected and registered channel of the client, with more bytes
  -- behind it or without, reaches the server's gateway of the same client and tag, if that is alive
  -- and listened to, as one event, which the server's adapter reads as exactly that message, with
  -- the same bytes behind. The generated serializers are taken to read back what they write.
  pub channel_send-adapt :
      (cl : ClientRouter.Env) (sv : ServerRouter.Env)
      → sv.codec ≡ cl.codec
      → IsFaithful cl.codec
      → (tag : ℕ) (g : ClientRouter.Gateway) (service_id : ℕ) (a : A) (b : SocketBuffer)
        (r : ClientRouter) (bs route_bytes : List ℕ) (client_id : ℕ) (s : ServerRouter)
        (m : MapOfGateways) (id : ℕ) (h : ServerRouter.Gateway)
      → SocketBuffer.IsValid b
      → codec.serialize a ≡ some bs
      → r.is_connected ≡ true
      → ClientRouter.is_registered_gateway r tag ≡ true
      → cl.codec.serialize (channel_msg (next_msg tag g service_id (prepend bs b)))
        ≡ some route_bytes
      → lookup client_id s.client_id_to_map_of_gateways ≡ some m
      → lookup tag m ≡ some id
      → lookup id s.gateways ≡ some h
      → h.has_handler ≡ true
      → (p : ClientRouter.Posted) × (e : Gateway.Event) × ((channel_send codec cl tag g service_id a
            b r).1.posted
          ≡ p ∷ r.posted)
        × (ServerRouter.handle_message sv client_id (bytes p.buffer) s
            ≡ sv.react id e (record s { events = (id, e) ∷ s.events }))
        × (adapt codec e ≡ (none, some (input a (bs ++ bytes b))))
  channel_send-adapt cl sv same faithful tag g service_id a b r bs route_bytes client_id s m id h
        valid written online registered serialized known found alive listens =
      let whole = prepend_lem bs b valid in
      let (p, posted, heard) =
        send-heard cl sv same faithful tag g service_id (prepend bs b) r route_bytes client_id s m
          whole.0 online registered serialized known id h found alive listens in
      let e = Gateway.message g.next_sequence (bytes (prepend bs b)) in
      (
        p,
        e,
        ap (λ (o : OptError × ClientRouter). o.1.posted)
              (sends cl tag g service_id a b r bs written)
            ∙ posted,
        heard,
        subst
            (λ x.
              adapt codec (Gateway.message g.next_sequence x)
              ≡ (none, some (input a (bs ++ bytes b))))
            (sym (bytes-prepend bs b)) (adapted g.next_sequence a bs (bytes b) written),
      )
