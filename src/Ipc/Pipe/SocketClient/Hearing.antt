-- ===== src/Ipc/Pipe/SocketClient/Hearing.antt =====
-- What the router hears of the messages that the daemon sends (src/common/ipc/pipe/socket_client.cpp).
use ocvsmd.Common.{
  ℕ, zero, suc, ◌<◌, ◌≡◌, refl, sym, ap, ◌∙◌, subst, Option, none, some, List, [], ◌∷◌, All,
}
use ocvsmd.Error.{OptError}
use ocvsmd.Io.SocketBuffer.{Payload}
use ocvsmd.Io.Posix.{Incoming, contents}
use ocvsmd.Ipc.Pipe.SocketBase
use ocvsmd.Ipc.Pipe.SocketBase.{IoState, Rx, receive_data}
use ocvsmd.Ipc.Pipe.SocketBase.Frames.{Fits, IsByte}
use ocvsmd.Ipc.Pipe.SocketBase.Rounds.{stream, IsClean, measure}
use ocvsmd.Ipc.Pipe.SocketBase.Stream.{receive_all, receive_all-stream, after_call, and_also}
use ocvsmd.Ipc.Pipe.SocketClient.{
  Event, message, Callback, on_readable, SocketClient, Env, deliver, close_if, handle_receive,
}
use ocvsmd.Ipc.Pipe.SocketClient.Session.{notify-IsQuiet}

-- The executor calls back as long as the client waits for data and the socket has something.
abbrev pub go_on : Callback → Incoming → SocketClient → SocketClient → SocketClient
go_on on_readable (a ∷ s) c rest = rest
go_on _ _ c rest = c

unfoldable pub run_receive : Env → ℕ → SocketClient → SocketClient
run_receive env zero c = c
run_receive env (suc fuel) c =
    let rest = run_receive env fuel (handle_receive env c) in
    go_on c.socket_callback c.incoming c rest

-- Messages in their order, on top of what was heard before.
abbrev pub heard : List Payload → List Event → List Event
heard [] es = es
heard (p ∷ ps) es = heard ps (message p ∷ es)

abbrev delivered : Option Payload → List Event → List Event
delivered none es = es
delivered (some p) es = message p ∷ es

heard-and_also :
    (o : Option Payload) (ps : List Payload) (es : List Event)
    → heard (and_also o ps) es ≡ heard ps (delivered o es)
heard-and_also none ps es = refl
heard-and_also (some p) ps es = refl

module _ (env : Env) where
  -- The client after a delivery.
  record After (rx : Rx) (c d : SocketClient) : Type 0 where
    waits : d.socket_callback ≡ c.socket_callback
    state : d.io_state ≡ rx.state
    incoming : d.incoming ≡ rx.incoming
    events : d.events ≡ delivered rx.delivered c.events

  deliver-After :
      (rx : Rx) (c : SocketClient) (o : Option Payload)
      → rx.delivered ≡ o
      → After rx c (deliver env o (record c { io_state = rx.state; incoming = rx.incoming }))
  deliver-After rx c none e = record {
    waits = refl;
    state = refl;
    incoming = refl;
    events = ap (λ o. delivered o c.events) (sym e);
  }
  deliver-After rx c (some p) e =
      let c' = record c { io_state = rx.state; incoming = rx.incoming } in
      let q = notify-IsQuiet env (message p) c' in
      record {
        waits = q.callback;
        state = q.state;
        incoming = q.incoming;
        events = q.events ∙ ap (λ o. delivered o c.events) (sym e);
      }

  receive-After :
      (c : SocketClient)
      → let rx = receive_data c.io_state c.incoming in
        rx.result ≡ none → After rx c (handle_receive env c)
  unfolding handle_receive
  receive-After c e =
      let rx = receive_data c.io_state c.incoming in
      let d = deliver env rx.delivered (record c { io_state = rx.state; incoming = rx.incoming }) in
      subst (λ o. After rx c (close_if env o d)) (sym e) (deliver-After rx c rx.delivered refl)

  -- What a run with some fuel gives the router.
  abbrev Hears : ℕ → Type 0
  Hears fuel =
      (c : SocketClient) (s : Incoming)
      → c.socket_callback ≡ on_readable
      → c.incoming ≡ s
      → (receive_all fuel c.io_state s).result ≡ none
      → (run_receive env fuel c).events ≡ heard (receive_all fuel c.io_state s).payloads c.events

  run-heard : (fuel : ℕ) → Hears fuel
  unfolding run_receive receive_all
  run-heard zero c s w i h = refl
  run-heard (suc fuel) c [] w i h =
      ap (λ k. (go_on k c.incoming c (run_receive env fuel (handle_receive env c))).events) w
      ∙ ap (λ t. (go_on on_readable t c (run_receive env fuel (handle_receive env c))).events) i
  run-heard (suc fuel) c (a ∷ s) w i h =
      ap (λ k. (go_on k c.incoming c (run_receive env fuel (handle_receive env c))).events) w
      ∙ ap (λ t. (go_on on_readable t c (run_receive env fuel (handle_receive env c))).events) i
      ∙ onward (λ d t. run-heard fuel d t) (receive_data c.io_state (a ∷ s)) refl
          (receive_data c.io_state (a ∷ s)).result refl h
    where
      onward :
          Hears fuel
          → (rx : Rx) → receive_data c.io_state (a ∷ s) ≡ rx
          → (o : OptError) → rx.result ≡ o
          → (after_call o rx.state rx.delivered (receive_all fuel rx.state rx.incoming)).result
            ≡ none
          → (run_receive env fuel (handle_receive env c)).events
            ≡ heard
                (after_call o rx.state rx.delivered
                  (receive_all fuel rx.state rx.incoming)).payloads
                c.events
      onward ih rx same (some e) res k = cc
      onward ih rx same none res k =
          let now : receive_data c.io_state c.incoming ≡ rx =
            ap (λ t. receive_data c.io_state t) i ∙ same in
          let after : After rx c (handle_receive env c) =
            subst (λ x. After x c (handle_receive env c)) now
              (receive-After c (ap (λ x. x.result) now ∙ res)) in
          let st = after.state in
          ih (handle_receive env c) rx.incoming (after.waits ∙ w) after.incoming
            (ap (λ io. (receive_all fuel io rx.incoming).result) st ∙ k)
          ∙ ap
              (λ io. heard (receive_all fuel io rx.incoming).payloads (handle_receive env c).events)
              st
          ∙ ap (λ es. heard (receive_all fuel rx.state rx.incoming).payloads es) after.events
          ∙ sym (
              heard-and_also rx.delivered (receive_all fuel rx.state rx.incoming).payloads c.events)

  -- A client that waits for data at the start of a stream: when the daemon's frames of any messages,
  -- each of 1 to 2 ^ 20 bytes, arrive in whatever pieces and without failures, the router is given
  -- exactly these messages, in their order, and nothing else, whatever it sends meanwhile. As many
  -- callbacks are enough as there are bytes and arrivals, and one more.
  pub run_receive-heard :
      (c : SocketClient) (ps : List Payload) (fuel : ℕ)
      → c.socket_callback ≡ on_readable
      → c.io_state ≡ SocketBase.init
      → All Fits ps
      → All (All IsByte) ps
      → IsClean c.incoming
      → contents c.incoming ≡ stream ps
      → measure c.incoming < fuel
      → (run_receive env fuel c).events ≡ heard ps c.events
  run_receive-heard c ps fuel w io f b k e m =
      let decodes = receive_all-stream ps c.incoming fuel f b k e m in
      run-heard fuel c c.incoming w refl
        (ap (λ x. (receive_all fuel x c.incoming).result) io ∙ decodes.fine)
      ∙ ap (λ x. heard (receive_all fuel x c.incoming).payloads c.events) io
      ∙ ap (λ qs. heard qs c.events) decodes.payloads
