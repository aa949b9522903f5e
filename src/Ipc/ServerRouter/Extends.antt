-- ===== src/Ipc/ServerRouter/Extends.antt =====
-- Every operation of the server router keeps the registrations in order and calls nobody that is
-- not registered (src/common/ipc/server_router.cpp).
use ocvsmd.Common.{
  ℕ, ◌≡◌, refl, Bool, Option, none, some, List, [], ◌∷◌, arith, ◌==◌, inl, inr, Option-cases, All,
  has_value, if_cases, ◌&&◌,
}
use ocvsmd.Common.Map.{lookup, erase, values}
use ocvsmd.Error.{OptError}
use ocvsmd.Io.SocketBuffer.{Payload, SocketBuffer}
use ocvsmd.Ipc.Gateway.{Event, connected}
use ocvsmd.Ipc.Route.{
  Route, empty, connect, channel_msg, channel_end, ChannelMsg, ChannelEnd, real_payload,
}
use ocvsmd.Ipc.ServerRouter.{
  Gateway, ServerRouter, MapOfGateways, Env, Created, is_connected, find_gateway,
  is_registered_gateway, with_gateway, with_map, lock, post, gateway_send, gateway_complete,
  gateway_event, event_if_alive, event_if_registered, gateway_subscribe, dispose_in,
  gateway_dispose, complete_each, disconnect_in, handle_disconnected, handle_route_connect,
  create_channel, unclaimed, deliver, dispatch, handle_route_channel_msg, end_of_locked, end_in,
  handle_route_channel_end, handle_route, handle_message, find_in,
}
use ocvsmd.Ipc.ServerRouter.Registry.{
  Entry, Registered, lookup-Entry, Extends, Extends-refl, Extends-trans, shrinks-Extends,
  like-Extends, event-Extends,
}
use ocvsmd.Ipc.ServerRouter.Changes.{
  erased-Registered, forgotten-Registered, welcomed-Registered, created-Extends,
}

module _ (env : Env) where
  -- What is taken of handlers and factories: they work on the router through its operations.
  pub record IsRespectful : Type 0 where
    pub reacts : (id : ℕ) (e : Event) (r : ServerRouter) → Extends r (env.react id e r).1
    pub creates : (new : Created) (r : ServerRouter) → Extends r (env.create new r)

  pub post-Extends :
      (c : ℕ) (route : Route) (b : SocketBuffer) (r s : ServerRouter)
      → Extends r s
      → Extends r (post env c route b s).1
  unfolding post
  post-Extends c route b r s x = elim (Option-cases (env.codec.serialize route)) [
    | inl e ↦ rw (e, post) x
    | inr (bs, e) ↦ rw (e, post) (Extends-trans r s _ x (like-Extends s _ (refl, refl, refl)))
  ]

  touch-Extends :
      (id : ℕ) (g : Gateway) (r s : ServerRouter) → Extends r s → Extends r (with_gateway s id g)
  touch-Extends id g r s x = Extends-trans r s _ x (like-Extends s _ (refl, refl, refl))

  pub gateway_send-Extends :
      (id : ℕ) (g : Gateway) (service_id : ℕ) (b : SocketBuffer) (r : ServerRouter)
      → Extends r (gateway_send env id g service_id b r).1
  unfolding gateway_send
  gateway_send-Extends id g service_id b r =
      if_cases P (is_connected r g.client_id)
        (λ _.
          if_cases P (is_registered_gateway r g.client_id g.tag)
            (λ _. post-Extends _ _ _ r _ (touch-Extends id _ r r (Extends-refl r)))
            (λ _. Extends-refl r))
        (λ _. Extends-refl r)
    where
      P : OptError × ServerRouter → Type 0
      P o = Extends r o.1

  pub gateway_complete-Extends :
      (id : ℕ) (g : Gateway) (err : OptError) (keep_alive : Bool) (r : ServerRouter)
      → Extends r (gateway_complete env id g err keep_alive r).1
  unfolding gateway_complete
  gateway_complete-Extends id g err keep_alive r =
      if_cases P (is_connected r g.client_id)
        (λ _.
          if_cases P (is_registered_gateway r g.client_id g.tag)
            (λ _. post-Extends _ _ _ r _ (touch-Extends id _ r r (Extends-refl r)))
            (λ _. Extends-refl r))
        (λ _. Extends-refl r)
    where
      P : OptError × ServerRouter → Type 0
      P o = Extends r o.1

  dispose_in-Extends :
      (o : Option MapOfGateways) (g : Gateway) (r : ServerRouter)
      → lookup g.client_id r.client_id_to_map_of_gateways ≡ o
      → Extends r (dispose_in env o g r)
  dispose_in-Extends none g r known = Extends-refl r
  dispose_in-Extends (some m) g r known =
      let r' = with_map r g.client_id (erase g.tag m) in
      let x : Extends r r' =
        shrinks-Extends r r'
          (λ c t id h. (erased-Registered r g.client_id g.tag m known c t id h).0) refl refl in
      if_cases (Extends r) (has_value (lookup g.tag m)) (λ _. post-Extends _ _ _ r r' x) (λ _. x)

  pub gateway_dispose-Extends :
      (id : ℕ) (g : Gateway) (r : ServerRouter) → Extends r (gateway_dispose env id g r)
  unfolding gateway_dispose
  gateway_dispose-Extends id g r =
      let r' = record r { gateways = erase id r.gateways } in
      Extends-trans r r' _ (like-Extends r r' (refl, refl, refl))
        (dispose_in-Extends (lookup g.client_id r.client_id_to_map_of_gateways) g r' refl)

  pub handle_route_connect-Extends :
      (c : ℕ) (r : ServerRouter) → Extends r (handle_route_connect env c r).1
  unfolding handle_route_connect
  handle_route_connect-Extends c r =
      let o = post env c _ _ r in
      let x : Extends r o.1 = post-Extends c _ _ r r (Extends-refl r) in
      if_cases (Extends r) (has_value o.0) (λ _. x)
        (λ _.
          Extends-trans r o.1 _ x
            (shrinks-Extends o.1 _ (welcomed-Registered o.1 _ c refl) refl refl))

module _ (env : Env) (respects : IsRespectful env) where
  -- A handler is called, of a gateway that was registered at the start.
  event_if_alive-Extends :
      (c t id : ℕ) (e : Event) (r s : ServerRouter)
      → Registered r c t id
      → Extends r s
      → Extends r (event_if_alive env id e s).1
  unfolding event_if_alive gateway_event
  event_if_alive-Extends c t id e r s reg x = elim (Option-cases (lookup id s.gateways)) [
    | inl gone ↦ rw (gone, event_if_alive) x
    | inr (g, alive) ↦
        rw (alive, event_if_alive)
          (if_cases (λ (o : OptError × ServerRouter). Extends r o.1) g.has_handler
            (λ _.
              Extends-trans r (record s { events = (id, e) ∷ s.events }) _
                (event-Extends r s c t id e reg x) (respects.reacts id e _))
            (λ _. x))
  ]

  found-Registered :
      (c t id : ℕ) (r : ServerRouter) (o : Option MapOfGateways)
      → lookup c r.client_id_to_map_of_gateways ≡ o
      → find_in o t ≡ some id
      → Registered r c t id
  found-Registered c t id r none known h = cc
  found-Registered c t id r (some m) known h = record {
    map = m;
    known = known;
    entry = lookup-Entry t id m h;
  }

  event_if_registered-Extends :
      (c t : ℕ) (e : Event) (r : ServerRouter) → Extends r (event_if_registered env c t e r).1
  unfolding event_if_registered find_gateway
  event_if_registered-Extends c t e r = elim (Option-cases (find_gateway r c t)) [
    | inl gone ↦ rw (gone, event_if_registered) (Extends-refl r)
    | inr (id, found) ↦
        rw (found, event_if_registered)
          (event_if_alive-Extends c t id e r r
            (found-Registered c t id r (lookup c r.client_id_to_map_of_gateways) refl found)
            (Extends-refl r))
  ]

  pub gateway_subscribe-Extends :
      (id : ℕ) (g : Gateway) (has_handler : Bool) (r : ServerRouter)
      → Extends r (gateway_subscribe env id g has_handler r)
  unfolding gateway_subscribe
  gateway_subscribe-Extends id g has_handler r =
      let r' = with_gateway r id (record g { has_handler = has_handler }) in
      let x : Extends r r' = like-Extends r r' (refl, refl, refl) in
      if_cases (Extends r) (is_connected r g.client_id)
        (λ _. Extends-trans r r' _ x (event_if_registered-Extends g.client_id g.tag connected r'))
        (λ _. x)

  -- Gateways that were registered with one client at the start.
  abbrev AllOf : ServerRouter → ℕ → List ℕ → Type 0
  AllOf r c = All (λ id. (t : ℕ) × Registered r c t id)

  complete_each-Extends :
      (c : ℕ) (ids : List ℕ) (r s : ServerRouter)
      → AllOf r c ids
      → Extends r s
      → Extends r (complete_each env ids s)
  unfolding complete_each
  complete_each-Extends c [] r s regs x = x
  complete_each-Extends c (id ∷ ids) r s ((t, reg), regs) x =
      complete_each-Extends c ids r _ regs (event_if_alive-Extends c t id _ r s reg x)

  values-Entry : (m : MapOfGateways) → All (λ id. (t : ℕ) × Entry t id m) (values m)
  unfolding Entry
  values-Entry [] = tt
  values-Entry ((t, id) ∷ m) = ((t, inl (refl, refl)), weaken (values m) (values-Entry m))
    where
      weaken :
          (ids : List ℕ)
          → All (λ j. (u : ℕ) × Entry u j m) ids
          → All (λ j. (u : ℕ) × Entry u j ((t, id) ∷ m)) ids
      weaken [] h = tt
      weaken (j ∷ ids) ((u, h), hs) = ((u, inr h), weaken ids hs)

  values-Registered :
      (c : ℕ) (m : MapOfGateways) (r : ServerRouter)
      → lookup c r.client_id_to_map_of_gateways ≡ some m
      → AllOf r c (values m)
  values-Registered c m r known = each (values m) (values-Entry m)
    where
      each : (ids : List ℕ) → All (λ id. (t : ℕ) × Entry t id m) ids → AllOf r c ids
      each [] h = tt
      each (id ∷ ids) ((t, h), hs) =
          ((t, record { map = m; known = known; entry = h }), each ids hs)

  disconnect_in-Extends :
      (o : Option MapOfGateways) (c : ℕ) (r : ServerRouter)
      → lookup c r.client_id_to_map_of_gateways ≡ o
      → Extends r (disconnect_in env o c r)
  disconnect_in-Extends none c r known = Extends-refl r
  disconnect_in-Extends (some m) c r known =
      complete_each-Extends c (values m) r _ (values-Registered c m r known)
        (shrinks-Extends r _ (forgotten-Registered r _ c refl) refl refl)

  pub handle_disconnected-Extends :
      (c : ℕ) (r : ServerRouter) → Extends r (handle_disconnected env c r).1
  unfolding handle_disconnected
  handle_disconnected-Extends c r =
      disconnect_in-Extends (lookup c r.client_id_to_map_of_gateways) c r refl

  locked-Registered :
      (c t id : ℕ) (m : MapOfGateways) (r : ServerRouter) (o : Option ℕ)
      → lookup c r.client_id_to_map_of_gateways ≡ some m
      → lookup t m ≡ o
      → lock o r ≡ some id
      → Registered r c t id
  locked-Registered c t id m r none known e h = cc
  locked-Registered c t id m r (some j) known e h = record {
    map = m;
    known = known;
    entry = lookup-Entry t id m (ground (arith, e, h));
  }

  unclaimed-Extends :
      (c : ℕ) (m : MapOfGateways) (msg : ChannelMsg) (real : Payload) (r : ServerRouter)
      → lookup c r.client_id_to_map_of_gateways ≡ some m
      → Extends r (unclaimed env c m msg real r).1
  unfolding unclaimed create_channel
  unclaimed-Extends c m msg real r known =
      if_cases (Extends r)
        ((msg.sequence == 0) && has_value (lookup msg.service_id r.service_id_to_channel_factory))
        (λ _.
          Extends-trans r _ _ (created-Extends r _ c msg.tag m known refl refl refl)
            (respects.creates _ _))
        (λ _. Extends-refl r)

  deliver-Extends :
      (o : Option ℕ) (c : ℕ) (m : MapOfGateways) (msg : ChannelMsg) (real : Payload)
      (r : ServerRouter)
      → lookup c r.client_id_to_map_of_gateways ≡ some m
      → lock (lookup msg.tag m) r ≡ o
      → Extends r (deliver env o c m msg real r).1
  deliver-Extends none c m msg real r known e = unclaimed-Extends c m msg real r known
  deliver-Extends (some id) c m msg real r known e =
      event_if_alive-Extends c msg.tag id _ r r
        (locked-Registered c msg.tag id m r (lookup msg.tag m) known refl e) (Extends-refl r)

  dispatch-Extends :
      (o : Option MapOfGateways) (c : ℕ) (msg : ChannelMsg) (real : Payload) (r : ServerRouter)
      → lookup c r.client_id_to_map_of_gateways ≡ o
      → Extends r (dispatch env o c msg real r).1
  dispatch-Extends none c msg real r known = Extends-refl r
  dispatch-Extends (some m) c msg real r known = deliver-Extends _ c m msg real r known refl

  handle_route_channel_msg-Extends :
      (c : ℕ) (msg : ChannelMsg) (payload : Payload) (r : ServerRouter)
      → Extends r (handle_route_channel_msg env c msg payload r).1
  unfolding handle_route_channel_msg
  handle_route_channel_msg-Extends c msg payload r =
      elim (Option-cases (real_payload payload msg.payload_size)) [
        | inl e ↦ rw (e, handle_route_channel_msg) (like-Extends r _ (refl, refl, refl))
        | inr (real, e) ↦ rw (e, handle_route_channel_msg) (dispatch-Extends _ c msg real r refl)
      ]

  end_of_locked-Extends :
      (o : Option ℕ) (c : ℕ) (m : MapOfGateways) (msg : ChannelEnd) (r : ServerRouter)
      → lookup c r.client_id_to_map_of_gateways ≡ some m
      → lock (lookup msg.tag m) r ≡ o
      → Extends r (end_of_locked env o c m msg r).1
  end_of_locked-Extends none c m msg r known e = Extends-refl r
  end_of_locked-Extends (some id) c m msg r known e =
      event_if_alive-Extends c msg.tag id _ r _
        (locked-Registered c msg.tag id m r (lookup msg.tag m) known refl e)
        (if_cases (Extends r) msg.keep_alive (λ _. Extends-refl r)
          (λ _.
            shrinks-Extends r _ (λ c' t' j h. (erased-Registered r c msg.tag m known c' t' j h).0)
              refl refl))

  end_in-Extends :
      (o : Option MapOfGateways) (c : ℕ) (msg : ChannelEnd) (r : ServerRouter)
      → lookup c r.client_id_to_map_of_gateways ≡ o
      → Extends r (end_in env o c msg r).1
  end_in-Extends none c msg r known = Extends-refl r
  end_in-Extends (some m) c msg r known = end_of_locked-Extends _ c m msg r known refl

  pub handle_message-Extends :
      (c : ℕ) (payload : Payload) (r : ServerRouter) → Extends r (handle_message env c payload r).1
  unfolding handle_message handle_route_channel_end
  handle_message-Extends c payload r = route-Extends (env.codec.deserialize payload)
    where
      route-Extends : (o : Option Route) → Extends r (handle_route env o c payload r).1
      route-Extends none = Extends-refl r
      route-Extends (some empty) = Extends-refl r
      route-Extends (some (connect x)) = handle_route_connect-Extends env c r
      route-Extends (some (channel_msg x)) = handle_route_channel_msg-Extends c x payload r
      route-Extends (some (channel_end x)) = end_in-Extends _ c x r refl
