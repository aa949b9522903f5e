-- ===== src/Tests/Routers.antt =====
-- src/common/ipc/client_router.cpp and server_router.cpp at concrete states, with handlers that
-- only listen.
use mathlib.Core.List.{flatten}
use ocvsmd.Common.{
  Option, ◌++◌, sym, ◌∙◌, subst, Bool-cases, inl, inr, ◌==◌, ℕ, ◌≡◌, refl, ==_refl, true, false,
  none, some, List, [], ◌∷◌, arith,
}
use ocvsmd.Common.Map.{lookup, insert}
use ocvsmd.Common.Int.{pos}
use ocvsmd.Error.{dsdl_error_to_opt_error}
use ocvsmd.Io.SocketBuffer
use ocvsmd.Io.SocketBuffer.{SocketBuffer, of_payload, bytes, prepend}
use ocvsmd.Ipc.Gateway
use ocvsmd.Ipc.Gateway.{completed, message}
use ocvsmd.Ipc.Route.{ChannelEnd, real_payload, connect, channel_msg}
use ocvsmd.Ipc.ClientRouter
use ocvsmd.Ipc.ClientRouter.{ClientRouter}
use ocvsmd.Ipc.ClientRouter.Silence
use ocvsmd.Ipc.ClientRouter.Silence.{events_of}
use ocvsmd.Ipc.ClientRouter.Steps.{makes, sends, here, next, pipe_disconnects, final_end_is_last}
use ocvsmd.Ipc.ClientRouter.Sequence.{InOrder}
use ocvsmd.Ipc.ClientRouter.Numbers.{numbered-InOrder}
use ocvsmd.Ipc.ServerRouter
use ocvsmd.Ipc.ServerRouter.{ServerRouter, Created}
use ocvsmd.Ipc.ServerRouter.Registry.{Entry, Registered, IsValid, Extends-refl}
use ocvsmd.Ipc.ServerRouter.Extends.{IsRespectful}
use ocvsmd.Ipc.ServerRouter.Steps
use ocvsmd.Ipc.ServerRouter.Steps.{Reach-IsValid, final_end_silences}
use ocvsmd.Ipc.Channel.{MsgCodec, IsReadBack, input, channel_send, adapt}
use ocvsmd.Ipc.Channel.Delivery.{channel_send-adapt}
use ocvsmd.Ipc.Transit.{next_msg, send-heard, first_send-creates}
use ocvsmd.Tests.Codec.{codec, write, codec-IsFaithful}

abbrev client_env : ClientRouter.Env
client_env = record { codec = codec; pipe_send = λ r b. none; react = λ tag e r. (none, r) }

client_env-IsRespectful : Silence.IsRespectful client_env
client_env-IsRespectful = record { keeps = λ tag evs t e r g. g }

abbrev server_env : ServerRouter.Env
server_env = record {
  codec = codec;
  pipe_send = λ r client_id b. none;
  react = λ id e r. (none, r);
  create = λ new r. r;
}

abbrev gateway : ClientRouter.Gateway
gateway = record { next_sequence = 0; has_handler = true; completion_opt_error = none }

-- A client with one channel, connected.
abbrev client : ClientRouter
client = record ClientRouter.init {
  next_tag = 1;
  is_connected = true;
  map_of_gateways = (0, tt) ∷ [];
  gateways = (0, gateway) ∷ [];
}

-- One gateway made from the start.
abbrev made : ClientRouter
made = (ClientRouter.make_gateway ClientRouter.init).1

made_gateway : lookup 0 made.gateways ≡ some ClientRouter.new_gateway
unfolding ClientRouter.make_gateway lookup insert
made_gateway = refl

abbrev tried : ClientRouter
tried =
    (ClientRouter.gateway_send client_env 0 ClientRouter.new_gateway 3 (of_payload (5 ∷ [])) made).1

numbered-InOrder_example : InOrder tried 0
numbered-InOrder_example =
    numbered-InOrder client_env (λ t e r o. o) (λ route. (write route, refl)) tried 0
      (next (next here (makes (omega arith)))
        (sends 0 ClientRouter.new_gateway 3 (of_payload (5 ∷ [])) made_gateway))

abbrev final_end : ChannelEnd
final_end = record {
  tag = 0;
  keep_alive = false;
  error = record { error_code = 0; raw_errno = pos 0 };
}

client_registered : ClientRouter.is_registered_gateway client 0 ≡ true
unfolding ClientRouter.is_registered_gateway lookup
client_registered = refl

client_gateway : lookup 0 client.gateways ≡ some gateway
unfolding lookup
client_gateway = refl

abbrev ended : ClientRouter
ended = (ClientRouter.handle_route_channel_end client_env final_end client).1

abbrev lost : ClientRouter
lost = (ClientRouter.handle_disconnected client_env ended).1

final_end_is_last_example :
    events_of 0 lost.events
    ≡ completed (dsdl_error_to_opt_error final_end.error) false ∷ events_of 0 client.events
final_end_is_last_example =
    final_end_is_last client_env client_env-IsRespectful final_end client lost gateway refl
      (omega arith) client_registered client_gateway refl (next here pipe_disconnects)

abbrev buffer : SocketBuffer
unfolding of_payload
buffer = of_payload (5 ∷ 6 ∷ [])

buffer-IsValid : SocketBuffer.IsValid buffer
unfolding of_payload flatten
buffer-IsValid = record { sized = refl; solid = (omega arith, tt) }

abbrev server_gateway : ServerRouter.Gateway
server_gateway = record {
  client_id = 7;
  tag = 0;
  next_sequence = 0;
  has_handler = true;
  completion_opt_error = none;
}

-- A server that knows a service, with client 7 connected.
abbrev server : ServerRouter
server = record ServerRouter.init {
  client_id_to_map_of_gateways = (7, []) ∷ [];
  service_id_to_channel_factory = (3, tt) ∷ [];
}

abbrev serving : ServerRouter
serving = record ServerRouter.init {
  client_id_to_map_of_gateways = (7, (0, 0) ∷ []) ∷ [];
  gateways = (0, server_gateway) ∷ [];
  next_gateway = 1;
}

looked_up : {A : Type 0} (k : ℕ) (a : A) → lookup k ((k, a) ∷ []) ≡ some a
unfolding lookup
looked_up k a = rw (==_refl k)

abbrev first_bytes : List ℕ
first_bytes = write (channel_msg (next_msg 0 gateway 3 buffer))

send-heard_example :
    (p : ClientRouter.Posted) × ((ClientRouter.gateway_send client_env 0 gateway 3 buffer
        client).1.posted
      ≡ p ∷ [])
    × (ServerRouter.handle_message server_env 7 (bytes p.buffer) serving
        ≡ (none, record serving { events = (0, message 0 (bytes buffer)) ∷ [] }))
send-heard_example =
    send-heard client_env server_env refl codec-IsFaithful 0 gateway 3 buffer client first_bytes 7
      serving ((0, 0) ∷ []) buffer-IsValid refl client_registered refl (looked_up 7 ((0, 0) ∷ [])) 0
      server_gateway (looked_up 0 0) (looked_up 0 server_gateway) refl

-- Numbers of one byte as messages.
abbrev first_byte : List ℕ → Option ℕ
first_byte [] = none
first_byte (n ∷ rest) = some n

abbrev number_codec : MsgCodec ℕ
number_codec = record { serialize = λ n. some (n ∷ []); deserialize = first_byte }

number_codec-IsReadBack : IsReadBack number_codec
number_codec-IsReadBack = record {
  reads_back = λ a bs rest e.
      let same : a ∷ [] ≡ bs = cc in subst (λ b. first_byte (b ++ rest) ≡ some a) same refl;
}

channel_send-adapt_example :
    (p : ClientRouter.Posted) × (e : Gateway.Event) × ((channel_send number_codec client_env 0
        gateway 3 9 buffer client).1.posted
      ≡ p ∷ [])
    × (ServerRouter.handle_message server_env 7 (bytes p.buffer) serving
        ≡ (none, record serving { events = (0, e) ∷ [] }))
    × (adapt number_codec e ≡ (none, some (input 9 ((9 ∷ []) ++ bytes buffer))))
channel_send-adapt_example =
    channel_send-adapt number_codec number_codec-IsReadBack client_env server_env refl
      codec-IsFaithful 0 gateway 3 9 buffer client (9 ∷ [])
      (write (channel_msg (next_msg 0 gateway 3 (prepend (9 ∷ []) buffer)))) 7 serving ((0, 0) ∷ [])
      0 server_gateway buffer-IsValid refl refl client_registered refl (looked_up 7 ((0, 0) ∷ []))
      (looked_up 0 0) (looked_up 0 server_gateway) refl

no_gateway : lookup {V = ℕ} 0 [] ≡ none
unfolding lookup
no_gateway = refl

first_send-creates_example :
    (p : ClientRouter.Posted) × ((ClientRouter.gateway_send client_env 0 gateway 3 buffer
        client).1.posted
      ≡ p ∷ [])
    × (ServerRouter.handle_message server_env 7 (bytes p.buffer) server ≡ (
      none,
      record server {
        client_id_to_map_of_gateways = insert 7 (insert 0 0 []) server.client_id_to_map_of_gateways;
        gateways = insert 0 (ServerRouter.new_gateway 7 0) [];
        next_gateway = 1;
        created = record { service_id = 3; gateway = 0; payload = bytes buffer } ∷ [];
      },
    ))
first_send-creates_example =
    first_send-creates client_env server_env refl codec-IsFaithful 0 gateway 3 buffer client
      first_bytes 7 server [] buffer-IsValid refl client_registered refl (looked_up 7 []) no_gateway
      refl (looked_up 3 tt)

server_env-IsRespectful : IsRespectful server_env
server_env-IsRespectful = record {
  reacts = λ id e r. Extends-refl r;
  creates = λ new r. Extends-refl r;
}

-- The server from its start to a connected client.
abbrev welcomed : ServerRouter
welcomed =
    (ServerRouter.handle_message server_env 7
      (write (
        connect
          (record { major = 0; minor = 1; error = record { error_code = 0; raw_errno = pos 0 } })))
      ServerRouter.init).1

welcomed-IsValid : IsValid welcomed
welcomed-IsValid =
    Reach-IsValid server_env server_env-IsRespectful welcomed
      (Steps.next Steps.here (Steps.receives 7 _))

serving_only : (c t id : ℕ) → Registered serving c t id → (7 ≡ c) × (0 ≡ t) × (0 ≡ id)
unfolding lookup Entry
serving_only c t id g = elim (Bool-cases (7 == c)) [
  | inl hit ↦
      let same : g.map ≡ (0, 0) ∷ [] = ground (arith, hit, g.known) in
      let e = subst (Entry t id) same g.entry in ground (arith, hit, e)
  | inr miss ↦ absurd (ground (arith, miss, g.known))
]

serving-IsValid : IsValid serving
serving-IsValid = record {
  made = λ c t id g. omega (arith, (serving_only c t id g).2);
  once = λ c t c' t' id g h. (
    sym (serving_only c t id g).0 ∙ (serving_only c' t' id h).0,
    sym (serving_only c t id g).1 ∙ (serving_only c' t' id h).1,
  );
}

abbrev server_ended : ServerRouter
server_ended = (ServerRouter.handle_route_channel_end server_env 7 final_end serving).1

final_end_silences_example :
    events_of 0 (ServerRouter.handle_disconnected server_env 7 server_ended).1.events
    ≡ completed (dsdl_error_to_opt_error final_end.error) false ∷ events_of 0 serving.events
final_end_silences_example =
    final_end_silences server_env server_env-IsRespectful 7 final_end serving ((0, 0) ∷ []) 0
      server_gateway serving-IsValid refl (looked_up 7 ((0, 0) ∷ [])) (looked_up 0 0)
      (looked_up 0 server_gateway) refl
      (ServerRouter.handle_disconnected server_env 7 server_ended).1
      (Steps.next Steps.here (Steps.pipe_disconnects 7))

oversized_cut : real_payload (1 ∷ 2 ∷ []) 3 ≡ none
unfolding real_payload
oversized_cut = refl
