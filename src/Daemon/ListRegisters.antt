-- ===== src/Daemon/ListRegisters.antt =====
-- `Fsm` of `ListRegistersServiceImpl` (src/daemon/engine/svc/node/list_registers_service.cpp): a channel
-- names nodes, and then asks to begin; each node is asked for the names of its registers by their index,
-- until it answers with an empty one. A state machine that `complete` has released is gone: what works on
-- it after that is a fault. What the channel is told and what the nodes are asked are histories, newest
-- first; the results of the channel's `send` and `complete` are only logged by the code.
pub mod Names
use ocvsmd.Common.{
  ℕ, suc, ◌+◌, ◌%◌, ◌^◌, Bool, true, false, Option, none, some, List, [], ◌∷◌, if◌then◌else◌,
}
use ocvsmd.Common.Map.{Map, lookup, insert, emplace, erase, keys}
use ocvsmd.Error.{OptError, error, canceled}
use ocvsmd.Daemon.Sessions
use ocvsmd.Daemon.Sessions.{Service}
use ocvsmd.Daemon.CyError.{CyError, Outcome, success, failure, cy_failure_to_opt_error}

-- `Spec::Request`
pub record Request : Type 0 where
  pub timeout_us : ℕ
  pub node_ids : List ℕ

pub record NodeContext : Type 0 where
  pub timeout : ℕ
  pub reg_index : ℕ
  pub has_client : Bool
  pub has_promise : Bool

abbrev pub context : ℕ → NodeContext
context timeout = record {
  timeout = timeout;
  reg_index = 0;
  has_client = false;
  has_promise = false;
}

-- `Spec::Response`
pub record Response : Type 0 where
  pub node_id : ℕ
  pub item : List ℕ
  pub opt_error : OptError

-- A request that went out to a node.
pub record Called : Type 0 where
  pub node_id : ℕ
  pub index : ℕ

pub record Fsm : Type 0 where
  pub processing : Bool
  pub node_id_to_cnxt : Map NodeContext
  pub is_released : Bool
  pub faulted : Bool
  pub sent : List Response
  pub completions : List OptError
  pub calls : List Called

abbrev pub make : Fsm
make = record {
  processing = false;
  node_id_to_cnxt = [];
  is_released = false;
  faulted = false;
  sent = [];
  completions = [];
  calls = [];
}

pub record Env : Type 0 where
  pub make_client : Fsm → ℕ → Outcome
  pub request : Fsm → ℕ → Outcome

-- `CyPromise::Result`: the name in a node's response, or a failure.
pub data NodeResult : Type 0 where
  answered : List ℕ → NodeResult
  expired : CyError → NodeResult

abbrev pub set_contexts : Map NodeContext → Fsm → Fsm
set_contexts m f = record f { node_id_to_cnxt = m }

unfoldable pub fault : Fsm → Fsm
fault f = record f { faulted = true }

unfoldable pub complete : OptError → Fsm → Fsm
complete opt_error f = record f {
  node_id_to_cnxt = [];
  completions = opt_error ∷ f.completions;
  is_released = true;
}

abbrev pub complete_if_empty : Map NodeContext → Fsm → Fsm
complete_if_empty [] f = complete none f
complete_if_empty (c ∷ m) f = f

unfoldable pub release_node_context : ℕ → Fsm → Fsm
unfolding complete
release_node_context node_id f =
    let m = erase node_id f.node_id_to_cnxt in complete_if_empty m (set_contexts m f)

unfoldable pub send_response : ℕ → List ℕ → OptError → Fsm → Fsm
send_response node_id item opt_error f = record f {
  sent = record { node_id = node_id; item = item; opt_error = opt_error } ∷ f.sent;
}

-- A node that is there keeps its context.
unfoldable pub add_nodes : ℕ → List ℕ → Map NodeContext → Map NodeContext
add_nodes timeout [] m = m
add_nodes timeout (node_id ∷ node_ids) m =
    add_nodes timeout node_ids (emplace node_id (context timeout) m)

-- `handleEvent(Input)`
unfoldable pub handle_input : Request → Fsm → Fsm
unfolding add_nodes fault
handle_input input f =
    if f.is_released
    then fault f
    else if f.processing
    then f
    else set_contexts (add_nodes input.timeout_us input.node_ids f.node_id_to_cnxt) f

-- `reg_index++` on 16 bits
abbrev pub next_index : NodeContext → NodeContext
next_index c = record c { reg_index = (c.reg_index + 1) % 2 ^ 16 }

module _ (env : Env) where
  -- A failure to call a node is told to the channel, and the node is given up.
  unfoldable pub give_up : ℕ → CyError → Fsm → Fsm
  unfolding release_node_context send_response
  give_up node_id cy_failure f =
      release_node_context node_id (send_response node_id [] (cy_failure_to_opt_error cy_failure) f)

  abbrev pub requested : Outcome → ℕ → NodeContext → Fsm → Fsm
  requested success node_id c f = record f {
    node_id_to_cnxt = insert node_id (record c { has_promise = true }) f.node_id_to_cnxt;
    calls = record { node_id = node_id; index = c.reg_index } ∷ f.calls;
  }
  requested (failure cy_failure) node_id c f = give_up node_id cy_failure f

  unfoldable pub start_cy_reg_list_rpc_call_for : ℕ → NodeContext → Fsm → Fsm
  unfolding give_up release_node_context
  start_cy_reg_list_rpc_call_for node_id c f =
      if c.has_client
      then requested (env.request f node_id) node_id c f
      else release_node_context node_id f

  abbrev pub client_made : Outcome → ℕ → NodeContext → Fsm → Fsm
  client_made (failure cy_failure) node_id c f = give_up node_id cy_failure f
  client_made success node_id c f =
      let c' = record c { has_client = true } in
      start_cy_reg_list_rpc_call_for node_id c'
        (set_contexts (insert node_id c' f.node_id_to_cnxt) f)

  abbrev pub make_for : Option NodeContext → ℕ → Fsm → Fsm
  make_for none node_id f = f
  make_for (some c) node_id f = client_made (env.make_client f node_id) node_id c f

  unfoldable pub make_cy_rpc_client : ℕ → Fsm → Fsm
  unfolding start_cy_reg_list_rpc_call_for give_up fault
  make_cy_rpc_client node_id f =
      if f.is_released then fault f else make_for (lookup node_id f.node_id_to_cnxt) node_id f

  unfoldable pub make_cy_rpc_clients : List ℕ → Fsm → Fsm
  unfolding make_cy_rpc_client
  make_cy_rpc_clients [] f = f
  make_cy_rpc_clients (node_id ∷ node_ids) f =
      make_cy_rpc_clients node_ids (make_cy_rpc_client node_id f)

  abbrev pub process : Map NodeContext → Fsm → Fsm
  process [] f = complete none f
  process (c ∷ m) f = make_cy_rpc_clients (keys (c ∷ m)) f

  abbrev pub completed_by : Bool → Fsm → Fsm
  completed_by false f = complete (some (error canceled)) f
  completed_by true f =
      if f.processing then f else process f.node_id_to_cnxt (record f { processing = true })

  -- `handleEvent(Completed)`
  unfoldable pub handle_completed : Bool → Fsm → Fsm
  unfolding complete make_cy_rpc_clients fault
  handle_completed keep_alive f = if f.is_released then fault f else completed_by keep_alive f

  -- An empty name ends the list.
  abbrev pub respond_by : NodeResult → ℕ → NodeContext → Fsm → Fsm
  respond_by (answered []) node_id c f = release_node_context node_id f
  respond_by (answered (byte ∷ name)) node_id c f =
      let c' = next_index c in
      start_cy_reg_list_rpc_call_for node_id c' (
        set_contexts (insert node_id c' f.node_id_to_cnxt)
          (send_response node_id (byte ∷ name) none f))
  respond_by (expired cy_failure) node_id c f = give_up node_id cy_failure f

  abbrev pub respond_in : Option NodeContext → ℕ → NodeResult → Fsm → Fsm
  respond_in none node_id result f = f
  respond_in (some c) node_id result f = respond_by result node_id c f

  unfoldable pub handle_node_response : ℕ → NodeResult → Fsm → Fsm
  unfolding start_cy_reg_list_rpc_call_for give_up send_response release_node_context fault
  handle_node_response node_id result f =
      if f.is_released
      then fault f
      else respond_in (lookup node_id f.node_id_to_cnxt) node_id result f

abbrev pub is_over : Fsm → Bool
is_over f = f.is_released

-- `operator()`
unfoldable pub serve : Request → Service Fsm → Service Fsm
unfolding handle_input
serve request s = Sessions.serve is_over (handle_input request make) s
