-- ===== src/Daemon/Relay/RawRpcClient/Calls.antt =====
-- Which calls of a channel are answered (src/daemon/engine/svc/relay/raw_rpc_client_service.cpp).
use ocvsmd.Common.{
  ℕ, ◌+◌, ◌<◌, ◌≤◌, ◌≡◌, ◌≢◌, refl, sym, subst, Bool, true, false, Option, none, some, List, [],
  ◌∷◌, arith, if◌then◌else◌, length,
}
use ocvsmd.Error.{OptError}
use ocvsmd.Io.SocketBuffer.{Payload}
use ocvsmd.Ipc.Route.{real_payload, real_payload-eq-none_iff}
use ocvsmd.Daemon.CyError.{Outcome, success, failure, cy_failure_to_opt_error}
use ocvsmd.Daemon.Sessions
use ocvsmd.Daemon.Sessions.{Service}
use ocvsmd.Daemon.Relay.{IsSettled, live-IsSettled, Keeps-IsSettled, closes}
use ocvsmd.Daemon.Relay.RawRpcClient.{
  Request, empty, create, config, call, Response, created, Promise, Requested, Fsm, make, Env,
  RpcResult, complete, fault, replied, reply, started, start, configure, called, call_with,
  input_event, handle_input, handle_completed, response_of, handle_rpc_response, is_over,
}

-- Calls that get smaller, from below `n`.
abbrev pub Below : ℕ → List ℕ → Type 0
Below n [] = Unit
Below n (a ∷ answers) = (a < n) × Below a answers

Below-weaken : (n m : ℕ) (answers : List ℕ) → n ≤ m → Below n answers → Below m answers
Below-weaken n m [] h b = tt
Below-weaken n m (a ∷ answers) h b = (omega (arith, b.0), b.1)

-- A promise that still waits is that of the newest call.
abbrev pub Waits : Option Promise → ℕ → List ℕ → Type 0
Waits none n answers = Unit
Waits (some p) n answers = p.is_answered ≡ false → (p.call_id + 1 ≡ n) × Below p.call_id answers

pub record IsSound (f : Fsm) : Type 0 where
  pub settled : IsSettled f.life
  pub ordered : Below f.next_call_id f.answers
  pub waits : Waits f.cy_promise f.next_call_id f.answers
  pub let_go : f.life.is_released ≡ true → (f.cy_promise ≡ none) × (f.cy_raw_svc_client ≡ none)

complete-IsSound :
    (o : OptError) (f : Fsm) → f.life.is_released ≡ false → IsSound f → IsSound (complete o f)
unfolding complete
complete-IsSound o f alive h = record {
  settled = Keeps-IsSettled (closes o) alive h.settled;
  ordered = h.ordered;
  waits = tt;
  let_go = λ _. (refl, refl);
}

module _ (env : Env) where
  replied-IsSound :
      (e : OptError) (r : Response) (b : Bool) (f : Fsm)
      → f.life.is_released ≡ false
      → IsSound f
      → IsSound (replied env e r b f)
  replied-IsSound none r b f alive h = record {
    settled = h.settled;
    ordered = h.ordered;
    waits = h.waits;
    let_go = h.let_go;
  }
  replied-IsSound (some e) r true f alive h = complete-IsSound (some e) f alive h
  replied-IsSound (some e) r false f alive h = h

  reply-IsSound :
      (r : Response) (b : Bool) (f : Fsm)
      → f.life.is_released ≡ false
      → IsSound f
      → IsSound (reply env r b f)
  unfolding reply
  reply-IsSound r b f alive h = replied-IsSound (env.send f) r b f alive h

  make-IsSound : IsSound make
  make-IsSound = record { settled = live-IsSettled; ordered = tt; waits = tt; let_go = λ e. cc }

  with_client-IsSound :
      (priority : ℕ) (f : Fsm)
      → f.life.is_released ≡ false
      → IsSound f
      → IsSound (record f { cy_raw_svc_client = some priority })
  with_client-IsSound priority f alive h = record {
    settled = h.settled;
    ordered = h.ordered;
    waits = h.waits;
    let_go = λ gone. cc (alive, gone);
  }

  start-IsSound : (r : Request) → IsSound (start env r make)
  unfolding start
  start-IsSound empty = make-IsSound
  start-IsSound (create extent_size service_id server_node_id) =
      by_outcome (env.make_client server_node_id service_id extent_size)
    where
      by_outcome :
          (o : Outcome)
          → IsSound (
              started env (elim o [
                | success ↦ (true, record make { cy_raw_svc_client = some (env.default_priority) })
                | failure cy_failure ↦ (false, complete (cy_failure_to_opt_error cy_failure) make)
              ]))
      by_outcome success =
          reply-IsSound created true _ refl
            (with_client-IsSound env.default_priority make refl make-IsSound)
      by_outcome (failure cy_failure) = complete-IsSound _ make refl make-IsSound
  start-IsSound (config priority) = make-IsSound
  start-IsSound (call request_timeout_us response_timeout_us payload_size) = make-IsSound

  module _ (f : Fsm) (alive : f.life.is_released ≡ false) (h : IsSound f) where
    called-IsSound : (o : Outcome) (r : Requested) → IsSound (called env o r f)
    called-IsSound success r = record {
      settled = h.settled;
      ordered = Below-weaken f.next_call_id (f.next_call_id + 1) f.answers (omega arith) h.ordered;
      waits = λ _. (refl, h.ordered);
      let_go = λ gone. cc (alive, gone);
    }
    called-IsSound (failure cy_failure) r = reply-IsSound _ false f alive h

    call_with-IsSound :
        (client : Option ℕ) (t u : ℕ) (bytes : Option Payload)
        → bytes ≢ none
        → IsSound (call_with env client t u bytes f)
    call_with-IsSound none t u bytes there = complete-IsSound _ f alive h
    call_with-IsSound (some priority) t u none there = absurd (there refl)
    call_with-IsSound (some priority) t u (some bytes) there = called-IsSound (env.request f _) _

    configure-IsSound :
        (client : Option ℕ) (priority : List ℕ) → IsSound (configure env client priority f)
    configure-IsSound none priority = complete-IsSound _ f alive h
    configure-IsSound (some old) [] = h
    configure-IsSound (some old) (priority ∷ more) = with_client-IsSound priority f alive h

-- A call claims no more bytes than came.
abbrev pub InRange : Request → Payload → Type 0
InRange empty payload = Unit
InRange (create extent_size service_id server_node_id) payload = Unit
InRange (config priority) payload = Unit
InRange (call request_timeout_us response_timeout_us payload_size) payload =
    payload_size ≤ length payload

event-IsSound :
    (env : Env) (r : Request) (payload : Payload) (f : Fsm)
    → f.life.is_released ≡ false
    → InRange r payload
    → IsSound f
    → IsSound (input_event env r payload f)
event-IsSound env empty payload f alive range h = h
event-IsSound env (create extent_size service_id server_node_id) payload f alive range h = h
event-IsSound env (config priority) payload f alive range h =
    configure-IsSound env f alive h f.cy_raw_svc_client priority
event-IsSound env (call t u payload_size) payload f alive range h =
    call_with-IsSound env f alive h f.cy_raw_svc_client t u (real_payload payload payload_size)
      (λ e. absurd (omega (arith, (real_payload-eq-none_iff payload payload_size).0 e, range)))

-- What happens on a channel that is there: an input, a completion by the client, or the one callback of
-- the promise that is kept. The Cyphal side and the channel may do differently each time.
pub data Step (f : Fsm) : Fsm → Type 0 where
  inputs :
      (env : Env) (r : Request) (payload : Payload)
      → f.life.is_released ≡ false
      → InRange r payload
      → Step f (handle_input env r payload f)
  completes :
      (env : Env) (keep_alive : Bool) (opt_error : OptError)
      → f.life.is_released ≡ false
      → Step f (handle_completed env keep_alive opt_error f)
  responds :
      (env : Env) (p : Promise) (result : RpcResult)
      → f.life.is_released ≡ false
      → f.cy_promise ≡ some p
      → p.is_answered ≡ false
      → Step f (handle_rpc_response env p result f)

-- A channel after its first request.
pub data Begins : Fsm → Type 0 where
  begins : (env : Env) (r : Request) → Begins (start env r make)

Step-IsSound : {f g : Fsm} → Step f g → IsSound f → IsSound g
unfolding handle_input handle_completed handle_rpc_response
Step-IsSound {f} (inputs env r payload alive range) h =
    subst (λ b. IsSound (if b then fault f else input_event env r payload f)) (sym alive)
      (event-IsSound env r payload f alive range h)
Step-IsSound {f} (completes env keep_alive opt_error alive) h =
    subst (λ b. IsSound (if b then fault f else if keep_alive then f else complete opt_error f))
      (sym alive) (by_kind keep_alive)
  where
    by_kind : (k : Bool) → IsSound (if k then f else complete opt_error f)
    by_kind true = h
    by_kind false = complete-IsSound opt_error f alive h
Step-IsSound {f} (responds env p result alive kept unanswered) h =
    let (newest, before) = subst (λ o. Waits o f.next_call_id f.answers) kept h.waits unanswered in
    subst
      (λ b. IsSound (
        if b
        then fault f
        else reply env (response_of env result) false (record f {
          cy_promise = some (record p { is_answered = true });
          answers = p.call_id ∷ f.answers;
        })))
      (sym alive)
      (reply-IsSound env (response_of env result) false _ alive (record {
        settled = h.settled;
        ordered = (omega (arith, newest), before);
        waits = λ e. cc;
        let_go = λ gone. cc (alive, gone);
      }))

Begins-IsSound : (f : Fsm) → Begins f → IsSound f
Begins-IsSound _ (begins env r) = start-IsSound env r

-- In every state of the service, each channel, there or gone, has handled callbacks of different calls
-- only, in the order of the calls; one that still may come is that of the newest call. A channel that is
-- there was not completed; one that is gone was completed once, and kept no client and no promise. A call
-- that claims more bytes than came with it, which is undefined behaviour, is not among the inputs.
pub calls_in_order :
    {s : Service Fsm} → Sessions.Reach is_over Begins Step s → Sessions.IsSound is_over IsSound s
calls_in_order path =
    Sessions.Reach-IsSound is_over IsSound Begins-IsSound (λ f g step. Step-IsSound step) path
