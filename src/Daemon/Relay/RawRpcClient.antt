-- ===== src/Daemon/Relay/RawRpcClient.antt =====
-- `Fsm` of `RawRpcClientServiceImpl` (src/daemon/engine/svc/relay/raw_rpc_client_service.cpp): a channel
-- that calls a service of one node. A call that goes out is numbered; the promise that is kept is that
-- of the newest one. Histories are newest first.
pub mod Calls
use ocvsmd.Common.{
  ℕ, ◌+◌, Bool, true, false, Option, none, some, List, [], ◌∷◌, if◌then◌else◌, length,
}
use ocvsmd.Error.{OptError, DsdlError, error, canceled, opt_error_to_dsdl_error}
use ocvsmd.Io.SocketBuffer.{Payload, bytes, of_scattered}
use ocvsmd.Ipc.Route.{real_payload}
use ocvsmd.Daemon.Sessions
use ocvsmd.Daemon.Sessions.{Service}
use ocvsmd.Daemon.CyError.{CyError, Outcome, success, failure, cy_failure_to_opt_error}
use ocvsmd.Daemon.Relay.{Life, live, close, broken}

-- `Spec::Request`
pub data Request : Type 0 where
  empty : Request
  create : (extent_size service_id server_node_id : ℕ) → Request
  config : (priority : List ℕ) → Request
  call : (request_timeout_us response_timeout_us payload_size : ℕ) → Request

-- `RawRpcClientReceive_0_1`
pub record Receive : Type 0 where
  pub priority : ℕ
  pub remote_node_id : ℕ
  pub payload_size : ℕ

-- `Spec::Response`, with the raw bytes that go out behind it.
pub data Response : Type 0 where
  created : Response
  receive : Receive → Payload → Response
  failed : DsdlError → Response

-- `cy_promise_`: the call it stands for, and whether its one callback has come.
pub record Promise : Type 0 where
  pub call_id : ℕ
  pub is_answered : Bool

-- A request handed to the client of the node.
pub record Requested : Type 0 where
  pub priority : ℕ
  pub request_timeout_us : ℕ
  pub response_timeout_us : ℕ
  pub bytes : Payload

-- `answers` are the calls whose callbacks were handled, in `next_call_id` the calls that went out.
pub record Fsm : Type 0 where
  pub life : Life
  pub cy_raw_svc_client : Option ℕ
  pub cy_promise : Option Promise
  pub next_call_id : ℕ
  pub answers : List ℕ
  pub sent : List Response
  pub requested : List Requested

abbrev pub make : Fsm
make = record {
  life = live;
  cy_raw_svc_client = none;
  cy_promise = none;
  next_call_id = 0;
  answers = [];
  sent = [];
  requested = [];
}

pub record Env : Type 0 where
  pub make_client : ℕ → ℕ → ℕ → Outcome
  pub default_priority : ℕ
  pub request : Fsm → Requested → Outcome
  pub send : Fsm → OptError

-- `CyPromise::Result`: the response's priority, node and fragments, or a failure.
pub data RpcResult : Type 0 where
  answered : (priority remote_node_id : ℕ) (fragments : List Payload) → RpcResult
  expired : CyError → RpcResult

unfoldable pub complete : OptError → Fsm → Fsm
complete opt_error f = record f {
  cy_promise = none;
  cy_raw_svc_client = none;
  life = close opt_error f.life;
}

unfoldable pub fault : Fsm → Fsm
fault f = record f { life = broken f.life }

module _ (env : Env) where
  abbrev pub replied : OptError → Response → Bool → Fsm → Fsm
  replied none response complete_of_failure f = record f { sent = response ∷ f.sent }
  replied (some e) response complete_of_failure f =
      if complete_of_failure then complete (some e) f else f

  -- Both overloads of `reply`; that for raw bytes never completes.
  unfoldable pub reply : Response → Bool → Fsm → Fsm
  unfolding complete
  reply response complete_of_failure f = replied (env.send f) response complete_of_failure f

  unfoldable pub make_cy_svc_client : ℕ → ℕ → ℕ → Fsm → Bool × Fsm
  unfolding complete
  make_cy_svc_client server_node_id service_id extent_bytes f =
      elim (env.make_client server_node_id service_id extent_bytes) [
        | success ↦ (true, record f { cy_raw_svc_client = some (env.default_priority) })
        | failure cy_failure ↦ (false, complete (cy_failure_to_opt_error cy_failure) f)
      ]

  abbrev pub started : Bool × Fsm → Fsm
  started (true, f) = reply created true f
  started (false, f) = f

  unfoldable pub start : Request → Fsm → Fsm
  unfolding make_cy_svc_client reply
  start empty f = f
  start (create extent_size service_id server_node_id) f =
      started (make_cy_svc_client server_node_id service_id extent_size f)
  start (config priority) f = f
  start (call request_timeout_us response_timeout_us payload_size) f = f

  abbrev pub configure : Option ℕ → List ℕ → Fsm → Fsm
  configure none priority f = complete (some (error canceled)) f
  configure (some old) [] f = f
  configure (some old) (priority ∷ more) f = record f { cy_raw_svc_client = some priority }

  -- A request that went out replaces the promise of the one before it.
  abbrev pub called : Outcome → Requested → Fsm → Fsm
  called success r f = record f {
    requested = r ∷ f.requested;
    cy_promise = some (record { call_id = f.next_call_id; is_answered = false });
    next_call_id = f.next_call_id + 1;
  }
  called (failure cy_failure) r f =
      reply (failed (opt_error_to_dsdl_error (cy_failure_to_opt_error cy_failure))) false f

  -- A claim of more bytes than came is undefined behaviour.
  abbrev pub call_bytes : ℕ → ℕ → ℕ → Option Payload → Fsm → Fsm
  call_bytes priority request_timeout_us response_timeout_us none f = fault f
  call_bytes priority request_timeout_us response_timeout_us (some bytes) f =
      let r : Requested = record {
        priority = priority;
        request_timeout_us = request_timeout_us;
        response_timeout_us = response_timeout_us;
        bytes = bytes;
      } in
      called (env.request f r) r f

  abbrev pub call_with : Option ℕ → ℕ → ℕ → Option Payload → Fsm → Fsm
  call_with none request_timeout_us response_timeout_us bytes f = complete (some (error canceled)) f
  call_with (some priority) request_timeout_us response_timeout_us bytes f =
      call_bytes priority request_timeout_us response_timeout_us bytes f

  abbrev pub input_event : Request → Payload → Fsm → Fsm
  input_event empty payload f = f
  input_event (create extent_size service_id server_node_id) payload f = f
  input_event (config priority) payload f = configure f.cy_raw_svc_client priority f
  input_event (call request_timeout_us response_timeout_us payload_size) payload f =
      call_with f.cy_raw_svc_client request_timeout_us response_timeout_us
        (real_payload payload payload_size) f

  -- `handleEvent(Input)`
  unfoldable pub handle_input : Request → Payload → Fsm → Fsm
  unfolding complete fault reply
  handle_input input payload f = if f.life.is_released then fault f else input_event input payload f

  -- `handleEvent(Completed)`
  unfoldable pub handle_completed : Bool → OptError → Fsm → Fsm
  unfolding complete fault
  handle_completed keep_alive opt_error f =
      if f.life.is_released then fault f else if keep_alive then f else complete opt_error f

  abbrev pub response_of : RpcResult → Response
  response_of (answered priority remote_node_id fragments) =
      let sock_buff = of_scattered fragments in
      receive
        (record {
          priority = priority;
          remote_node_id = remote_node_id;
          payload_size = sock_buff.size;
        })
        (bytes sock_buff)
  response_of (expired cy_failure) =
      failed (opt_error_to_dsdl_error (cy_failure_to_opt_error cy_failure))

  -- The callback of the promise that is kept.
  unfoldable pub handle_rpc_response : Promise → RpcResult → Fsm → Fsm
  unfolding fault reply of_scattered
  handle_rpc_response p result f =
      if f.life.is_released
      then fault f
      else reply (response_of result) false (record f {
        cy_promise = some (record p { is_answered = true });
        answers = p.call_id ∷ f.answers;
      })

abbrev pub is_over : Fsm → Bool
is_over f = f.life.is_released

-- `operator()`
unfoldable pub serve : Env → Request → Service Fsm → Service Fsm
serve env request s = Sessions.serve is_over (start env request make) s
