-- ===== src/Daemon/ExecCmd.antt =====
-- `ExecCmdServiceImpl` and its `Fsm` (src/daemon/engine/svc/node/exec_cmd_service.cpp): a channel asks
-- for a command to be run on a set of Cyphal nodes; the state machine calls each of them, passes the
-- answers on as they come, and completes the channel after the last. The Cyphal presentation layer is
-- the environment. What the channel is told is a history; the results of its `send` and `complete` are
-- only logged by the code.
pub mod Frame
pub mod Answers
pub mod Finish
pub mod Counter
pub mod Runs
pub mod Sound
pub mod Lifetime
use ocvsmd.Common.{
  ℕ, zero, suc, ◌+◌, ◌%◌, Bool, true, false, not, Option, none, some, List, [], ◌∷◌, ◌==◌,
  if◌then◌else◌, has_value,
}
use ocvsmd.Common.Map.{Map, lookup, insert, emplace, erase, keys}
use ocvsmd.Error.{OptError, error, canceled}
use ocvsmd.Ipc.ClientRouter.{u64_mod}

-- `UavcanNodeExecCmdReq_0_1` and `UavcanNodeExecCmdRes_0_1`
pub record RequestPayload : Type 0 where
  pub command : ℕ
  pub parameter : List ℕ

pub record ResponsePayload : Type 0 where
  pub status : ℕ
  pub output : List ℕ

abbrev pub no_payload : ResponsePayload
no_payload = record { status = 0; output = [] }

-- `Spec::Request`
pub record Request : Type 0 where
  pub timeout_us : ℕ
  pub node_ids : List ℕ
  pub payload : RequestPayload

pub record NodeContext : Type 0 where
  pub timeout : ℕ
  pub payload : RequestPayload
  pub has_client : Bool
  pub has_promise : Bool

pub record Fsm : Type 0 where
  pub processing : Bool
  pub node_id_to_cnxt : Map NodeContext

-- A response given to a channel, of the state machine that owns it.
pub record Sent : Type 0 where
  pub fsm_id : ℕ
  pub node_id : ℕ
  pub payload : ResponsePayload
  pub opt_error : OptError

-- A call of a node.
pub record Called : Type 0 where
  pub fsm_id : ℕ
  pub node_id : ℕ
  pub timeout : ℕ
  pub payload : RequestPayload

-- `ExecCmdServiceImpl` with three histories, newest first. `faulted` is set where the code would work
-- on a state machine that was destroyed.
pub record Service : Type 0 where
  pub next_fsm_id : ℕ
  pub id_to_fsm : Map Fsm
  pub sent : List Sent
  pub completions : List (ℕ × OptError)
  pub calls : List Called
  pub faulted : Bool

abbrev pub init : Service
init = record {
  next_fsm_id = 0;
  id_to_fsm = [];
  sent = [];
  completions = [];
  calls = [];
  faulted = false;
}

-- The outcome of a call into the presentation layer, its failure already converted.
pub data Outcome : Type 0 where
  success : Outcome
  failure : OptError → Outcome

pub record Env : Type 0 where
  pub make_client : Service → ℕ → Outcome
  pub request : Service → ℕ → Outcome

-- `CyPromise::Result`
pub data NodeResult : Type 0 where
  answered : ResponsePayload → NodeResult
  expired : OptError → NodeResult

abbrev pub set_fsm : ℕ → Fsm → Service → Service
set_fsm id f s = record s { id_to_fsm = insert id f s.id_to_fsm }

abbrev pub set_contexts : ℕ → Fsm → Map NodeContext → Service → Service
set_contexts id f m s = set_fsm id (record f { node_id_to_cnxt = m }) s

abbrev pub fault : Service → Service
fault s = record s { faulted = true }

unfoldable pub release_fsm_by : ℕ → Service → Service
release_fsm_by id s = record s { id_to_fsm = erase id s.id_to_fsm }

-- `Fsm::complete`: the contexts are dropped with the state machine.
unfoldable pub complete : ℕ → OptError → Service → Service
unfolding release_fsm_by
complete id opt_error s =
    release_fsm_by id (record s { completions = (id, opt_error) ∷ s.completions })

unfoldable pub send_response : ℕ → ℕ → ResponsePayload → OptError → Service → Service
send_response id node_id payload opt_error s = record s {
  sent =
      record { fsm_id = id; node_id = node_id; payload = payload; opt_error = opt_error } ∷ s.sent;
}

abbrev pub complete_if_empty : Map NodeContext → ℕ → Service → Service
complete_if_empty [] id s = complete id none s
complete_if_empty (c ∷ m) id s = s

abbrev pub release_node_in : Option Fsm → ℕ → ℕ → Service → Service
release_node_in none id node_id s = fault s
release_node_in (some f) id node_id s =
    let m = erase node_id f.node_id_to_cnxt in complete_if_empty m id (set_contexts id f m s)

unfoldable pub release_node_context : ℕ → ℕ → Service → Service
unfolding complete
release_node_context id node_id s = release_node_in (lookup id s.id_to_fsm) id node_id s

-- `sendResponse` and `releaseNodeContext`, as every end of a call does.
unfoldable pub answer : ℕ → ℕ → ResponsePayload → OptError → Service → Service
unfolding send_response release_node_context
answer id node_id payload opt_error s =
    release_node_context id node_id (send_response id node_id payload opt_error s)

unfoldable pub handle_node_response : ℕ → ℕ → NodeResult → Service → Service
unfolding answer
handle_node_response id node_id (answered payload) s = answer id node_id payload none s
handle_node_response id node_id (expired opt_error) s = answer id node_id no_payload opt_error s

-- `handleEvent(Input)`: a node that is there already keeps its context.
unfoldable pub add_nodes : List ℕ → NodeContext → Map NodeContext → Map NodeContext
add_nodes [] c m = m
add_nodes (node_id ∷ node_ids) c m = add_nodes node_ids c (emplace node_id c m)

abbrev pub input_in : Option Fsm → ℕ → Request → Service → Service
input_in none id input s = fault s
input_in (some f) id input s =
    let c : NodeContext = record {
      timeout = input.timeout_us;
      payload = input.payload;
      has_client = false;
      has_promise = false;
    } in
    if f.processing then s else set_contexts id f (add_nodes input.node_ids c f.node_id_to_cnxt) s

unfoldable pub handle_input : ℕ → Request → Service → Service
unfolding add_nodes
handle_input id input s = input_in (lookup id s.id_to_fsm) id input s

-- `operator()`: a new channel with its first request.
unfoldable pub serve : Request → Service → Service
unfolding handle_input
serve request s =
    let id = s.next_fsm_id in
    handle_input id request (
      set_fsm id (record { processing = false; node_id_to_cnxt = [] })
        (record s { next_fsm_id = (id + 1) % u64_mod }))

module _ (env : Env) where
  abbrev pub requested : Outcome → ℕ → ℕ → Fsm → NodeContext → Service → Service
  requested (failure opt_error) id node_id f c s = answer id node_id no_payload opt_error s
  requested success id node_id f c s =
      set_contexts id f (insert node_id (record c { has_promise = true }) f.node_id_to_cnxt)
        (record s {
          calls =
              record { fsm_id = id; node_id = node_id; timeout = c.timeout; payload = c.payload }
              ∷ s.calls;
        })

  -- `startCyExecCmdRpcCallFor`, of a context whose client was just made.
  unfoldable pub start_cy_exec_cmd_rpc_call_for : ℕ → ℕ → Fsm → NodeContext → Service → Service
  unfolding answer release_node_context
  start_cy_exec_cmd_rpc_call_for id node_id f c s =
      if c.has_client
      then requested (env.request s node_id) id node_id f c s
      else release_node_context id node_id s

  abbrev pub client_made : Outcome → ℕ → ℕ → Fsm → NodeContext → Service → Service
  client_made (failure opt_error) id node_id f c s = answer id node_id no_payload opt_error s
  client_made success id node_id f c s =
      let c' = record c { has_client = true } in
      let f' = record f { node_id_to_cnxt = insert node_id c' f.node_id_to_cnxt } in
      start_cy_exec_cmd_rpc_call_for id node_id f' c' (set_fsm id f' s)

  abbrev pub make_for : Option NodeContext → ℕ → ℕ → Fsm → Service → Service
  make_for none id node_id f s = s
  make_for (some c) id node_id f s = client_made (env.make_client s node_id) id node_id f c s

  abbrev pub make_in : Option Fsm → ℕ → ℕ → Service → Service
  make_in none id node_id s = fault s
  make_in (some f) id node_id s = make_for (lookup node_id f.node_id_to_cnxt) id node_id f s

  unfoldable pub make_cy_rpc_client : ℕ → ℕ → Service → Service
  unfolding answer start_cy_exec_cmd_rpc_call_for
  make_cy_rpc_client id node_id s = make_in (lookup id s.id_to_fsm) id node_id s

  unfoldable pub make_cy_rpc_clients : ℕ → List ℕ → Service → Service
  unfolding make_cy_rpc_client
  make_cy_rpc_clients id [] s = s
  make_cy_rpc_clients id (node_id ∷ node_ids) s =
      make_cy_rpc_clients id node_ids (make_cy_rpc_client id node_id s)

  abbrev pub process : Map NodeContext → ℕ → Service → Service
  process [] id s = complete id none s
  process (c ∷ m) id s = make_cy_rpc_clients id (keys (c ∷ m)) s

  abbrev pub completed_in : Option Fsm → ℕ → Bool → Service → Service
  completed_in none id keep_alive s = fault s
  completed_in (some f) id false s = complete id (some (error canceled)) s
  completed_in (some f) id true s =
      if f.processing
      then s
      else process f.node_id_to_cnxt id (set_fsm id (record f { processing = true }) s)

  -- `handleEvent(Completed)`
  unfoldable pub handle_completed : ℕ → Bool → Service → Service
  unfolding complete make_cy_rpc_clients
  handle_completed id keep_alive s = completed_in (lookup id s.id_to_fsm) id keep_alive s
