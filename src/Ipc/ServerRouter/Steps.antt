-- ===== src/Ipc/ServerRouter/Steps.antt =====
-- The server router as a state machine (src/common/ipc/server_router.cpp).
use ocvsmd.Common.{ℕ, ◌≡◌, refl, sym, ap, ◌∙◌, subst, Bool, true, false, some, ◌∷◌, ==_refl}
use ocvsmd.Common.Map.{lookup, erase}
use ocvsmd.Error.{OptError, dsdl_error_to_opt_error}
use ocvsmd.Io.SocketBuffer.{Payload, SocketBuffer}
use ocvsmd.Ipc.Gateway.{completed}
use ocvsmd.Ipc.Route.{ChannelEnd}
use ocvsmd.Ipc.ClientRouter.Silence.{events_of}
use ocvsmd.Ipc.ServerRouter.{
  Gateway, ServerRouter, MapOfGateways, init, Env, register_channel_factory, with_map, lock,
  gateway_send, gateway_complete, gateway_subscribe, gateway_dispose, handle_connected,
  handle_disconnected, handle_message, handle_route_channel_end, end_in, end_of_locked,
}
use ocvsmd.Ipc.ServerRouter.Registry.{
  Registered, IsValid, lookup-Entry, Extends, Extends-refl, Extends-trans, like-Extends,
}
use ocvsmd.Ipc.ServerRouter.Hearing.{event_if_alive-heard}
use ocvsmd.Ipc.ServerRouter.Changes.{erased-Registered}
use ocvsmd.Ipc.ServerRouter.Extends.{
  IsRespectful, gateway_send-Extends, gateway_complete-Extends, gateway_subscribe-Extends,
  gateway_dispose-Extends, handle_disconnected-Extends, handle_message-Extends,
}

-- An operation of a gateway is one of an object that is alive.
pub data Step (env : Env) (r : ServerRouter) : ServerRouter → Type 0 where
  registers : (service_id : ℕ) → Step env r (register_channel_factory service_id r)
  sends :
      (id : ℕ) (g : Gateway) (service_id : ℕ) (b : SocketBuffer)
      → lookup id r.gateways ≡ some g
      → Step env r (gateway_send env id g service_id b r).1
  completes :
      (id : ℕ) (g : Gateway) (e : OptError) (keep_alive : Bool)
      → lookup id r.gateways ≡ some g
      → Step env r (gateway_complete env id g e keep_alive r).1
  subscribes :
      (id : ℕ) (g : Gateway) (has_handler : Bool)
      → lookup id r.gateways ≡ some g
      → Step env r (gateway_subscribe env id g has_handler r)
  disposes :
      (id : ℕ) (g : Gateway)
      → lookup id r.gateways ≡ some g
      → Step env r (gateway_dispose env id g r)
  pipe_connects : (client_id : ℕ) → Step env r (handle_connected env client_id r).1
  pipe_disconnects : (client_id : ℕ) → Step env r (handle_disconnected env client_id r).1
  receives :
      (client_id : ℕ) (payload : Payload) → Step env r (handle_message env client_id payload r).1

pub data Reach (env : Env) (r : ServerRouter) : ServerRouter → Type 0 where
  here : Reach env r r
  next : {s t : ServerRouter} → Reach env r s → Step env s t → Reach env r t

module _ (env : Env) (respects : IsRespectful env) where
  Step-Extends : {r s : ServerRouter} → Step env r s → Extends r s
  unfolding register_channel_factory handle_connected
  Step-Extends {r} (registers service_id) = like-Extends r _ (refl, refl, refl)
  Step-Extends {r} (sends id g service_id b x) = gateway_send-Extends env id g service_id b r
  Step-Extends {r} (completes id g e k x) = gateway_complete-Extends env id g e k r
  Step-Extends {r} (subscribes id g h x) = gateway_subscribe-Extends env respects id g h r
  Step-Extends {r} (disposes id g x) = gateway_dispose-Extends env id g r
  Step-Extends {r} (pipe_connects c) = Extends-refl r
  Step-Extends {r} (pipe_disconnects c) = handle_disconnected-Extends env respects c r
  Step-Extends {r} (receives c payload) = handle_message-Extends env respects c payload r

  Reach-Extends : {r s : ServerRouter} → Reach env r s → Extends r s
  Reach-Extends {r} here = Extends-refl r
  Reach-Extends {r} (next {s} {t} path step) =
      Extends-trans r s t (Reach-Extends path) (Step-Extends step)

  init-IsValid : IsValid init
  unfolding lookup
  init-IsValid = record {
    made = λ c t id g. absurd (nothing c t id g);
    once = λ c t c' t' id g h. absurd (nothing c t id g);
  }
    where
      nothing : (c t id : ℕ) → ¬ Registered init c t id
      nothing c t id g = cc (g.known)

  -- The registrations that the end of a gateway rests on are valid wherever the router gets to.
  pub Reach-IsValid : (s : ServerRouter) → Reach env init s → IsValid s
  Reach-IsValid s path = (Reach-Extends path).valid init-IsValid

  module _ (c : ℕ) (msg : ChannelEnd) (r : ServerRouter) (m : MapOfGateways) (id : ℕ) (g : Gateway)
      (valid : IsValid r) (final : msg.keep_alive ≡ false)
      (known : lookup c r.client_id_to_map_of_gateways ≡ some m)
      (found : lookup msg.tag m ≡ some id) (alive : lookup id r.gateways ≡ some g)
      (listens : g.has_handler ≡ true) where
    -- The state in which the handler is called.
    abbrev told : ServerRouter
    told = record (with_map r c (erase msg.tag m)) {
      events = (id, completed (dsdl_error_to_opt_error msg.error) false) ∷ r.events;
    }

    ended :
        handle_route_channel_end env c msg r
        ≡ env.react id (completed (dsdl_error_to_opt_error msg.error) false) told
    unfolding handle_route_channel_end
    ended =
        ap (λ o. end_in env o c msg r) known
        ∙ ap (λ o. end_of_locked env (lock o r) c m msg r) found
        ∙ rw (alive, final)
            (event_if_alive-heard env id (completed (dsdl_error_to_opt_error msg.error) false)
              (with_map r c (erase msg.tag m)) g alive listens)

    reg : Registered r c msg.tag id
    reg = record { map = m; known = known; entry = lookup-Entry msg.tag id m found }

    unregistered : (c' t' : ℕ) → ¬ Registered told c' t' id
    unregistered c' t' h =
        let (old, ne) =
          erased-Registered r c msg.tag m known c' t' id
            (record { map = h.map; known = h.known; entry = h.entry }) in
        let (a, b) = valid.once c msg.tag c' t' id reg old in ne a b

    -- After a client's final end of a channel whose gateway is alive and listened to, in a state
    -- where gateways are registered at most once, the handler has heard that completion as the
    -- newest event, and hears nothing ever again: whatever is done with the router afterwards, in
    -- any order, also if the client uses the tag again. Handlers and factories are taken to work on
    -- the router through its operations.
    pub final_end_silences :
        (s : ServerRouter)
        → Reach env (handle_route_channel_end env c msg r).1 s
        → events_of id s.events
          ≡ completed (dsdl_error_to_opt_error msg.error) false ∷ events_of id r.events
    unfolding events_of
    final_end_silences s path =
        let ev = completed (dsdl_error_to_opt_error msg.error) false in
        let start : Extends told (handle_route_channel_end env c msg r).1 =
          subst (λ (o : OptError × ServerRouter). Extends told o.1) (sym ended)
            (respects.reacts id ev told) in
        let whole = Extends-trans told _ s start (Reach-Extends path) in
        whole.silent id (valid.made c msg.tag id reg) unregistered ∙ rw (==_refl id)
