-- ===== src/Ipc/Pipe/SocketClient/Session.antt =====
-- The order of the events that the router is given (src/common/ipc/pipe/socket_client.cpp).
use ocvsmd.Common.{
  ℕ, ◌≡◌, refl, sym, ap, ◌∙◌, Option, none, some, List, [], ◌∷◌, ◌==◌, if◌then◌else◌, if_cases,
  has_value,
}
use ocvsmd.Error.{OptError}
use ocvsmd.Io.SocketBuffer.{Payload, SocketBuffer}
use ocvsmd.Io.Posix.{Incoming, Outgoing}
use ocvsmd.Ipc.Pipe.SocketBase.{receive_data}
use ocvsmd.Ipc.Pipe.SocketClient.{
  Event, connected, message, disconnected, Callback, idle, on_writable, on_readable, SocketClient,
  make, Env, Setup, refusal, and_then, make_socket_handle, start, send, send_all, notify,
  handle_disconnect, handle_connect, deliver, close_if, handle_receive,
}

-- All that sends may change is what was sent.
pub record IsQuiet (c d : SocketClient) : Type 0 where
  pub events : d.events ≡ c.events
  pub callback : d.socket_callback ≡ c.socket_callback
  pub fd : d.has_fd ≡ c.has_fd
  pub state : d.io_state ≡ c.io_state
  pub incoming : d.incoming ≡ c.incoming

IsQuiet-refl : (c : SocketClient) → IsQuiet c c
IsQuiet-refl c = record { events = refl; callback = refl; fd = refl; state = refl; incoming = refl }

pub send-IsQuiet : (b : SocketBuffer) (c : SocketClient) → IsQuiet c (send b c).1
unfolding send
send-IsQuiet b c =
    if_cases (λ (o : OptError × SocketClient). IsQuiet c o.1) c.has_fd
      (λ _. record { events = refl; callback = refl; fd = refl; state = refl; incoming = refl })
      (λ _. IsQuiet-refl c)

send_all-IsQuiet : (bs : List SocketBuffer) (c : SocketClient) → IsQuiet c (send_all bs c)
unfolding send_all
send_all-IsQuiet [] c = IsQuiet-refl c
send_all-IsQuiet (b ∷ bs) c =
    let one = send-IsQuiet b c in
    let rest = send_all-IsQuiet bs (send b c).1 in
    record {
      events = rest.events ∙ one.events;
      callback = rest.callback ∙ one.callback;
      fd = rest.fd ∙ one.fd;
      state = rest.state ∙ one.state;
      incoming = rest.incoming ∙ one.incoming;
    }

pub notify-IsQuiet :
    (env : Env) (e : Event) (c : SocketClient)
    → IsQuiet (record c { events = e ∷ c.events }) (notify env e c)
unfolding notify
notify-IsQuiet env e c =
    send_all-IsQuiet (env.replies e (record c { events = e ∷ c.events }))
      (record c { events = e ∷ c.events })

-- The router's view of the connection: not there yet, there, gone; or out of order. A connection
-- that is refused goes without having been there.
pub data Phase : Type 0 where
  absent active gone broken : Phase

abbrev pub advance : Phase → Event → Phase
advance absent connected = active
advance absent disconnected = gone
advance active (message payload) = active
advance active disconnected = gone
advance _ _ = broken

unfoldable pub phase_of : List Event → Phase
phase_of [] = absent
phase_of (e ∷ es) = advance (phase_of es) e

-- The phase that goes with what the client waits for: for the connection to be made, absent; for
-- data, active. Without a callback nothing has begun, or all is over.
abbrev pub ended : List Event → Phase
ended [] = absent
ended (e ∷ es) = gone

abbrev pub expected : Callback → List Event → Phase
expected on_writable es = absent
expected on_readable es = active
expected idle es = ended es

-- A callback comes only while it is set; the router sends at any time.
pub data Step (env : Env) (c : SocketClient) : SocketClient → Type 0 where
  connects :
      (err so_error : ℕ)
      → c.socket_callback ≡ on_writable
      → Step env c (handle_connect env err so_error c)
  receives : c.socket_callback ≡ on_readable → Step env c (handle_receive env c)
  sends : (b : SocketBuffer) → Step env c (send b c).1

pub data Reach (env : Env) (c : SocketClient) : SocketClient → Type 0 where
  here : Reach env c c
  next : {d e : SocketClient} → Reach env c d → Step env d e → Reach env c e

abbrev pub IsOrderly : SocketClient → Type 0
IsOrderly c = phase_of c.events ≡ expected c.socket_callback c.events

quiet-IsOrderly : (c d : SocketClient) → IsQuiet c d → IsOrderly c → IsOrderly d
quiet-IsOrderly c d q o =
    ap phase_of q.events
    ∙ o
    ∙ sym (
        ap (λ k. expected k d.events) q.callback
        ∙ ap (λ es. expected c.socket_callback es) q.events)

start-IsOrderly :
    (setup : Setup) (i : Incoming) (w : Outgoing) → IsOrderly (start setup (make i w)).1
unfolding start make_socket_handle phase_of
start-IsOrderly setup i w =
    let result = and_then setup.socket (refusal setup.connect) in
    if_cases IsOrderly (has_value result)
      (λ _. if_cases IsOrderly (has_value result) (λ _. refl) (λ _. refl))
      (λ _.
        if_cases (λ (d : SocketClient). phase_of d.events ≡ absent) (has_value result) (λ _. refl)
          (λ _. refl))

module _ (env : Env) where
  notify-IsOrderly :
      (e : Event) (c : SocketClient)
      → advance (phase_of c.events) e ≡ expected c.socket_callback (e ∷ c.events)
      → IsOrderly (notify env e c)
  unfolding phase_of
  notify-IsOrderly e c h =
      quiet-IsOrderly (record c { events = e ∷ c.events }) _ (notify-IsQuiet env e c) h

  disconnect-IsOrderly :
      (c : SocketClient)
      → advance (phase_of c.events) disconnected ≡ gone
      → IsOrderly (handle_disconnect env c)
  unfolding handle_disconnect
  disconnect-IsOrderly c h = notify-IsOrderly disconnected _ h

  connects-IsOrderly :
      (err so_error : ℕ) (c : SocketClient)
      → c.socket_callback ≡ on_writable
      → IsOrderly c
      → IsOrderly (handle_connect env err so_error c)
  unfolding handle_connect
  connects-IsOrderly err so_error c w o =
      let quiet : phase_of c.events ≡ absent = o ∙ ap (λ k. expected k c.events) w in
      if_cases IsOrderly ((if err == 0 then so_error else err) == 0)
        (λ _. notify-IsOrderly connected _ (ap (λ p. advance p connected) quiet))
        (λ _.
          disconnect-IsOrderly (record c { socket_callback = idle })
            (ap (λ p. advance p disconnected) quiet))

  -- While the client waits for data.
  record Listens (c : SocketClient) : Type 0 where
    waits : c.socket_callback ≡ on_readable
    phase : phase_of c.events ≡ active

  deliver-Listens : (o : Option Payload) (c : SocketClient) → Listens c → Listens (deliver env o c)
  unfolding phase_of
  deliver-Listens none c l = l
  deliver-Listens (some p) c l =
      let q = notify-IsQuiet env (message p) c in
      record {
        waits = q.callback ∙ l.waits;
        phase = ap phase_of q.events ∙ ap (λ x. advance x (message p)) l.phase;
      }

  close_if-IsOrderly : (o : OptError) (c : SocketClient) → Listens c → IsOrderly (close_if env o c)
  close_if-IsOrderly none c l = l.phase ∙ sym (ap (λ k. expected k c.events) l.waits)
  close_if-IsOrderly (some e) c l =
      disconnect-IsOrderly c (ap (λ x. advance x disconnected) l.phase)

  receives-IsOrderly :
      (c : SocketClient)
      → c.socket_callback ≡ on_readable
      → IsOrderly c
      → IsOrderly (handle_receive env c)
  unfolding handle_receive
  receives-IsOrderly c w o =
      let rx = receive_data c.io_state c.incoming in
      close_if-IsOrderly rx.result _ (
        deliver-Listens rx.delivered (record c { io_state = rx.state; incoming = rx.incoming })
          (record { waits = w; phase = o ∙ ap (λ k. expected k c.events) w }))

  Reach-IsOrderly : {c d : SocketClient} → Reach env c d → IsOrderly c → IsOrderly d
  Reach-IsOrderly here o = o
  Reach-IsOrderly (next {d} path (connects err so_error w)) o =
      connects-IsOrderly err so_error d w (Reach-IsOrderly path o)
  Reach-IsOrderly (next {d} path (receives w)) o = receives-IsOrderly d w (Reach-IsOrderly path o)
  Reach-IsOrderly (next {d} path (sends b)) o =
      quiet-IsOrderly d _ (send-IsQuiet b d) (Reach-IsOrderly path o)

  -- From a start, whether it succeeds or fails, and through any later callbacks and sends, the router
  -- is told in order: once that the connection is there, then messages, then once that it is gone; or
  -- only that it is gone, if it is refused. What it was told last agrees with what the client waits
  -- for: nothing was told while the connection is being made, and the connection is there exactly
  -- while the client waits for data.
  pub session_in_order :
      (setup : Setup) (i : Incoming) (w : Outgoing) (c : SocketClient)
      → Reach env (start setup (make i w)).1 c
      → phase_of c.events ≡ expected c.socket_callback c.events
  session_in_order setup i w c path = Reach-IsOrderly path (start-IsOrderly setup i w)
