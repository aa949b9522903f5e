-- ===== src/Ipc/Pipe/SocketServer/Requests.antt =====
-- What sends leave alone, and what a request does to the client and to the others
-- (src/common/ipc/pipe/socket_server.cpp).
use ocvsmd.Common.{
  ℕ, ◌≡◌, refl, sym, ap, ◌∙◌, Bool, true, false, Option, none, some, List, [], ◌∷◌, arith, ◌==◌,
  if◌then◌else◌, inl, inr, Bool-cases, Option-cases, has_value, ==_refl,
}
use ocvsmd.Common.Map.{lookup, insert, erase, lookup-insert, lookup-erase}
use ocvsmd.Error.{OptError}
use ocvsmd.Io.SocketBuffer.{Payload, SocketBuffer}
use ocvsmd.Io.Posix.{Incoming}
use ocvsmd.Ipc.Pipe.SocketBase
use ocvsmd.Ipc.Pipe.SocketBase.{IoState, Rx, receive_data}
use ocvsmd.Ipc.Pipe.SocketServer.{
  Event, message, disconnected, ClientContext, SocketServer, Env, send, send_all, notify, deliver,
  close_if, handle_client_request,
}

-- The receiving side of a client: its state, and what is still to arrive.
abbrev pub receiver : Option ClientContext → Option (IoState × Incoming)
receiver none = none
receiver (some ctx) = some (ctx.state, ctx.incoming)

abbrev pub receiver_of : SocketServer → ℕ → Option (IoState × Incoming)
receiver_of s c = receiver (lookup c s.client_id_to_context)

-- Sends change nothing that is received by.
pub record IsQuiet (s t : SocketServer) : Type 0 where
  pub events : t.events ≡ s.events
  pub counter : t.unique_client_id_counter ≡ s.unique_client_id_counter
  pub receivers : (c : ℕ) → receiver_of t c ≡ receiver_of s c

pub send-IsQuiet : (c : ℕ) (b : SocketBuffer) (s : SocketServer) → IsQuiet s (send c b s).1
unfolding send
send-IsQuiet c b s = elim (Option-cases (lookup c s.client_id_to_context)) [
  | inl gone ↦ rw (gone, send) (record { events = refl; counter = refl; receivers = λ d. refl })
  | inr (ctx, found) ↦
      rw (found, send)
        (record {
          events = refl;
          counter = refl;
          receivers = λ d.
              let new = record ctx { outgoing = (SocketBase.send ctx.outgoing b).outgoing } in
              ap receiver (lookup-insert c d new s.client_id_to_context)
              ∙ same d new (sym (ap receiver found));
        })
]
  where
    same :
        (d : ℕ) (new : ClientContext)
        → receiver (some new) ≡ receiver_of s c
        → receiver (if c == d then some new else lookup d s.client_id_to_context) ≡ receiver_of s d
    same d new e = elim (Bool-cases (c == d)) [
      | inl hit ↦ rw hit (e ∙ ap (receiver_of s) (ground (arith, hit)))
      | inr miss ↦ rw miss refl
    ]

pub send_all-IsQuiet : (bs : List (ℕ × SocketBuffer)) (s : SocketServer) → IsQuiet s (send_all bs s)
unfolding send_all
send_all-IsQuiet [] s = record { events = refl; counter = refl; receivers = λ d. refl }
send_all-IsQuiet ((c, b) ∷ bs) s =
    let one = send-IsQuiet c b s in
    let rest = send_all-IsQuiet bs (send c b s).1 in
    record {
      events = rest.events ∙ one.events;
      counter = rest.counter ∙ one.counter;
      receivers = λ d. rest.receivers d ∙ one.receivers d;
    }

-- An event is noted; the router's sends do no more.
pub notify-IsQuiet :
    (env : Env) (e : Event) (s : SocketServer)
    → IsQuiet (record s { events = e ∷ s.events }) (notify env e s)
unfolding notify
notify-IsQuiet env e s =
    send_all-IsQuiet (env.replies e (record s { events = e ∷ s.events }))
      (record s { events = e ∷ s.events })

-- What a call of `receiveData` makes a client's receiver.
abbrev pub after_receive : Rx → Option (IoState × Incoming)
after_receive rx = if has_value rx.result then none else some (rx.state, rx.incoming)

-- The events of a call of `receiveData`, newest first.
abbrev pub delivery : Option Payload → ℕ → List Event → List Event
delivery none c es = es
delivery (some payload) c es = message c payload ∷ es

abbrev pub ending : OptError → ℕ → List Event → List Event
ending none c es = es
ending (some e) c es = disconnected c ∷ es

module _ (env : Env) (c : ℕ) where
  -- The events after a step, and the receivers that it leaves alone.
  pub record Noted (es : List Event) (s t : SocketServer) : Type 0 where
    pub events : t.events ≡ es
    pub counter : t.unique_client_id_counter ≡ s.unique_client_id_counter
    pub receivers : (d : ℕ) → receiver_of t d ≡ receiver_of s d

  pub notify-Noted : (e : Event) (s : SocketServer) → Noted (e ∷ s.events) s (notify env e s)
  notify-Noted e s =
      let q = notify-IsQuiet env e s in
      record { events = q.events; counter = q.counter; receivers = q.receivers }

  deliver-Noted :
      (o : Option Payload) (s : SocketServer) → Noted (delivery o c s.events) s (deliver env o c s)
  deliver-Noted none s = record { events = refl; counter = refl; receivers = λ d. refl }
  deliver-Noted (some payload) s = notify-Noted (message c payload) s

  -- The receiver of each client after a step on one of them.
  abbrev pub set_to : Option (IoState × Incoming) → SocketServer → ℕ → Option (IoState × Incoming)
  set_to new s d = if c == d then new else receiver_of s d

  pub record Serves (rx : Rx) (es : List Event) (s t : SocketServer) : Type 0 where
    pub events : t.events ≡ ending rx.result c es
    pub counter : t.unique_client_id_counter ≡ s.unique_client_id_counter
    pub receivers : (d : ℕ) → receiver_of t d ≡ set_to (after_receive rx) s d

  through_if :
      (b : Bool) (x y : Option ClientContext)
      → receiver (if b then x else y) ≡ (if b then receiver x else receiver y)
  through_if true x y = refl
  through_if false x y = refl

  close_if-Serves :
      (o : OptError) (rx : Rx) (es : List Event) (s t : SocketServer)
      → rx.result ≡ o
      → t.events ≡ es
      → t.unique_client_id_counter ≡ s.unique_client_id_counter
      → ((d : ℕ) → receiver_of t d ≡ set_to (some (rx.state, rx.incoming)) s d)
      → Serves rx es s (close_if env o c t)
  close_if-Serves none rx es s t e ev count recs = record {
    events = ev ∙ ap (λ o. ending o c es) (sym e);
    counter = count;
    receivers = λ d.
        recs d
        ∙ ap
            (λ (o : OptError).
              set_to (if has_value o then none else some (rx.state, rx.incoming)) s d)
            (sym e);
  }
  close_if-Serves (some err) rx es s t e ev count recs =
      let t' = record t { client_id_to_context = erase c t.client_id_to_context } in
      let n = notify-Noted (disconnected c) t' in
      record {
        events = n.events ∙ ap (λ es'. disconnected c ∷ es') ev ∙ ap (λ o. ending o c es) (sym e);
        counter = n.counter ∙ count;
        receivers = λ d.
            n.receivers d
            ∙ ap receiver (lookup-erase c d t.client_id_to_context)
            ∙ through_if (c == d) none (lookup d t.client_id_to_context)
            ∙ ap (λ x. if c == d then none else x) (recs d)
            ∙ drop_inner (c == d) _ _ _
            ∙ ap
                (λ (o : OptError).
                  set_to (if has_value o then none else some (rx.state, rx.incoming)) s d)
                (sym e);
      }
    where
      drop_inner :
          (b : Bool) (x y z : Option (IoState × Incoming))
          → (if b then x else (if b then y else z)) ≡ (if b then x else z)
      drop_inner true x y z = refl
      drop_inner false x y z = refl

  pub handle_client_request-Serves :
      (s : SocketServer) (ctx : ClientContext)
      → lookup c s.client_id_to_context ≡ some ctx
      → let rx = receive_data ctx.state ctx.incoming in
        Serves rx (delivery rx.delivered c s.events) s (handle_client_request env c s)
  unfolding handle_client_request
  handle_client_request-Serves s ctx found =
      let rx = receive_data ctx.state ctx.incoming in
      let new = record ctx { state = rx.state; incoming = rx.incoming } in
      let s' = record s { client_id_to_context = insert c new s.client_id_to_context } in
      let n = deliver-Noted rx.delivered s' in
      rw (found, handle_client_request)
        (close_if-Serves rx.result rx (delivery rx.delivered c s.events) s
          (deliver env rx.delivered c s') refl n.events n.counter
          (λ d.
            n.receivers d
            ∙ ap receiver (lookup-insert c d new s.client_id_to_context)
            ∙ through_if (c == d) (some new) (lookup d s.client_id_to_context)))

  -- A request of a client whose context is there is one call of `receiveData` on its connection:
  -- the client keeps what that leaves, or is forgotten if that fails. The router is given the
  -- payload if one is complete, and the disconnection if the call fails, and nothing else. What is
  -- received by every other client, its state and its stream, is left alone, whatever the router
  -- sends meanwhile.
  pub handle_client_request_lem :
      (s : SocketServer) (ctx : ClientContext)
      → lookup c s.client_id_to_context ≡ some ctx
      → let rx = receive_data ctx.state ctx.incoming in
        let t = handle_client_request env c s in
        (receiver_of t c ≡ after_receive rx)
        × (t.events ≡ ending rx.result c (delivery rx.delivered c s.events))
        × ((d : ℕ) → (c == d) ≡ false → receiver_of t d ≡ receiver_of s d)
  handle_client_request_lem s ctx found =
      let served = handle_client_request-Serves s ctx found in
      (
        served.receivers c ∙ rw (==_refl c) refl,
        served.events,
        λ d ne. served.receivers d ∙ rw ne refl,
      )
