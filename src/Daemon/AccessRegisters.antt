-- ===== src/Daemon/AccessRegisters.antt =====
-- `Fsm` of `AccessRegistersServiceImpl` (src/daemon/engine/svc/node/access_registers_service.cpp): a
-- channel names nodes and registers, and then asks to begin; each node is asked for one register after
-- the other, and each answer, or failure, is passed on at once. A state machine that `complete` has
-- released is gone: what works on it after that is a fault. What the channel is told is a history,
-- newest first; the results of its `send` and `complete` are only logged by the code.
pub mod Track
pub mod Loop
pub mod Runs
pub mod Wrap
use ocvsmd.Common.{
  ℕ, zero, suc, ◌+◌, ◌%◌, length, Bool, true, false, ◌||◌, Option, none, some, List, [], ◌∷◌, ◌++◌,
  ◌==◌, if◌then◌else◌, drop,
}
use ocvsmd.Common.Map.{Map, lookup, insert, emplace, erase, keys}
use ocvsmd.Error.{OptError, error, canceled}
use ocvsmd.Daemon.Sessions
use ocvsmd.Daemon.Sessions.{Service}
use ocvsmd.Daemon.CyError.{CyError, Outcome, success, failure, cy_failure_to_opt_error}

-- `AccessRegistersKeyValue_0_1`: a name and the bytes of a value; no bytes are the empty value.
pub record KeyValue : Type 0 where
  pub key : List ℕ
  pub value : List ℕ

abbrev pub no_register : KeyValue
no_register = record { key = []; value = [] }

-- `Spec::Request`
pub data Request : Type 0 where
  empty : Request
  scope : (timeout_us : ℕ) (node_ids : List ℕ) → Request
  register : KeyValue → Request

pub record NodeContext : Type 0 where
  pub timeout : ℕ
  pub reg_index : ℕ
  pub has_client : Bool
  pub has_promise : Bool

abbrev pub context : ℕ → NodeContext
context timeout = record {
  timeout = timeout;
  reg_index = 0;
  has_client = false;
  has_promise = false;
}

-- `Spec::Response`
pub record Response : Type 0 where
  pub node_id : ℕ
  pub item : KeyValue
  pub opt_error : OptError

-- A request that went out to a node.
pub record Called : Type 0 where
  pub node_id : ℕ
  pub item : KeyValue

pub record Fsm : Type 0 where
  pub processing : Bool
  pub node_id_to_cnxt : Map NodeContext
  pub registers : List KeyValue
  pub is_released : Bool
  pub faulted : Bool
  pub is_stuck : Bool
  pub sent : List Response
  pub completions : List OptError
  pub calls : List Called

abbrev pub make : Fsm
make = record {
  processing = false;
  node_id_to_cnxt = [];
  registers = [];
  is_released = false;
  faulted = false;
  is_stuck = false;
  sent = [];
  completions = [];
  calls = [];
}

-- The Cyphal side; and how many rounds more than there are registers the loop over them is followed.
pub record Env : Type 0 where
  pub make_client : Fsm → ℕ → Outcome
  pub more_rounds : ℕ
  pub request : Fsm → ℕ → Outcome

-- `CyPromise::Result`
pub data NodeResult : Type 0 where
  answered : List ℕ → NodeResult
  expired : CyError → NodeResult

abbrev pub set_contexts : Map NodeContext → Fsm → Fsm
set_contexts m f = record f { node_id_to_cnxt = m }

unfoldable pub fault : Fsm → Fsm
fault f = record f { faulted = true }

unfoldable pub complete : OptError → Fsm → Fsm
complete opt_error f = record f {
  node_id_to_cnxt = [];
  completions = opt_error ∷ f.completions;
  is_released = true;
}

abbrev pub complete_if_empty : Map NodeContext → Fsm → Fsm
complete_if_empty [] f = complete none f
complete_if_empty (c ∷ m) f = f

unfoldable pub release_node_context : ℕ → Fsm → Fsm
unfolding complete
release_node_context node_id f =
    let m = erase node_id f.node_id_to_cnxt in complete_if_empty m (set_contexts m f)

unfoldable pub send_response : ℕ → KeyValue → OptError → Fsm → Fsm
send_response node_id item opt_error f = record f {
  sent = record { node_id = node_id; item = item; opt_error = opt_error } ∷ f.sent;
}

-- An input adds nodes, each at its first register, or one register; a node that is there keeps its
-- context.
unfoldable pub add_nodes : ℕ → List ℕ → Map NodeContext → Map NodeContext
add_nodes timeout [] m = m
add_nodes timeout (node_id ∷ node_ids) m =
    add_nodes timeout node_ids (emplace node_id (context timeout) m)

unfoldable pub handle_input_event : Request → Fsm → Fsm
unfolding add_nodes
handle_input_event empty f = f
handle_input_event (scope timeout_us node_ids) f =
    set_contexts (add_nodes timeout_us node_ids f.node_id_to_cnxt) f
handle_input_event (register item) f = record f { registers = f.registers ++ item ∷ [] }

unfoldable pub handle_input : Request → Fsm → Fsm
unfolding handle_input_event fault
handle_input input f =
    if f.is_released then fault f else if f.processing then f else handle_input_event input f

-- `reg_index++` on 16 bits
abbrev pub index_mod : ℕ
index_mod = 65536

abbrev pub next_index : NodeContext → NodeContext
next_index c = record c { reg_index = (c.reg_index + 1) % index_mod }

abbrev pub failed_item : KeyValue → KeyValue
failed_item item = record item { value = [] }

module _ (env : Env) where
  -- A round of the loop over the registers that are left: a request that cannot be sent is an answer
  -- with an error, and the loop goes on with the next register.
  abbrev pub call_round :
      List KeyValue → Outcome → ℕ → (NodeContext → Fsm → Fsm) → NodeContext → Fsm → Fsm
  call_round [] sent node_id again c f = release_node_context node_id f
  call_round (item ∷ items) success node_id again c f = record f {
    node_id_to_cnxt = insert node_id (record c { has_promise = true }) f.node_id_to_cnxt;
    calls = record { node_id = node_id; item = item } ∷ f.calls;
  }
  call_round (item ∷ items) (failure cy_failure) node_id again c f =
      again (next_index c)
        (send_response node_id (failed_item item) (cy_failure_to_opt_error cy_failure) f)

  -- The loop, on fuel; one that is not left in time is stuck.
  unfoldable pub call_from : ℕ → ℕ → NodeContext → Fsm → Fsm
  unfolding release_node_context send_response
  call_from zero node_id c f = record f { is_stuck = true }
  call_from (suc rounds) node_id c f =
      call_round (drop c.reg_index f.registers) (env.request f node_id) node_id
        (call_from rounds node_id) c f

  unfoldable pub start_cy_reg_access_rpc_call_for : ℕ → NodeContext → Fsm → Fsm
  unfolding call_from release_node_context
  start_cy_reg_access_rpc_call_for node_id c f =
      if c.has_client
      then call_from (suc (length f.registers) + env.more_rounds) node_id c f
      else release_node_context node_id f

  abbrev pub client_made : Outcome → ℕ → NodeContext → Fsm → Fsm
  client_made (failure cy_failure) node_id c f =
      release_node_context node_id
        (send_response node_id no_register (cy_failure_to_opt_error cy_failure) f)
  client_made success node_id c f =
      let c' = record c { has_client = true } in
      start_cy_reg_access_rpc_call_for node_id c'
        (set_contexts (insert node_id c' f.node_id_to_cnxt) f)

  abbrev pub make_for : Option NodeContext → ℕ → Fsm → Fsm
  make_for none node_id f = f
  make_for (some c) node_id f = client_made (env.make_client f node_id) node_id c f

  unfoldable pub make_cy_rpc_client : ℕ → Fsm → Fsm
  unfolding start_cy_reg_access_rpc_call_for fault
  make_cy_rpc_client node_id f =
      if f.is_released then fault f else make_for (lookup node_id f.node_id_to_cnxt) node_id f

  unfoldable pub make_cy_rpc_clients : List ℕ → Fsm → Fsm
  unfolding make_cy_rpc_client
  make_cy_rpc_clients [] f = f
  make_cy_rpc_clients (node_id ∷ node_ids) f =
      make_cy_rpc_clients node_ids (make_cy_rpc_client node_id f)

  abbrev pub process : Map NodeContext → List KeyValue → Fsm → Fsm
  process [] items f = complete none f
  process (c ∷ m) [] f = complete none f
  process (c ∷ m) (item ∷ items) f = make_cy_rpc_clients (keys (c ∷ m)) f

  abbrev pub completed_by : Bool → Fsm → Fsm
  completed_by false f = complete (some (error canceled)) f
  completed_by true f =
      if f.processing
      then f
      else process f.node_id_to_cnxt f.registers (record f { processing = true })

  -- `handleEvent(Completed)`
  unfoldable pub handle_completed : Bool → Fsm → Fsm
  unfolding complete make_cy_rpc_clients fault
  handle_completed keep_alive f = if f.is_released then fault f else completed_by keep_alive f

  abbrev pub value_of : NodeResult → List ℕ
  value_of (answered value) = value
  value_of (expired cy_failure) = []

  abbrev pub error_of : NodeResult → OptError
  error_of (answered value) = none
  error_of (expired cy_failure) = cy_failure_to_opt_error cy_failure

  -- The register that a node was asked for; past the last one, `registers_[…]` is undefined.
  abbrev pub respond_at : List KeyValue → ℕ → NodeContext → NodeResult → Fsm → Fsm
  respond_at [] node_id c result f = fault f
  respond_at (item ∷ items) node_id c result f =
      let c' = next_index c in
      start_cy_reg_access_rpc_call_for node_id c' (
        set_contexts (insert node_id c' f.node_id_to_cnxt)
          (send_response node_id (record item { value = value_of result }) (error_of result) f))

  abbrev pub respond_in : Option NodeContext → ℕ → NodeResult → Fsm → Fsm
  respond_in none node_id result f = f
  respond_in (some c) node_id result f =
      respond_at (drop c.reg_index f.registers) node_id c result f

  unfoldable pub handle_node_response : ℕ → NodeResult → Fsm → Fsm
  unfolding start_cy_reg_access_rpc_call_for send_response fault
  handle_node_response node_id result f =
      if f.is_released
      then fault f
      else respond_in (lookup node_id f.node_id_to_cnxt) node_id result f

abbrev pub is_over : Fsm → Bool
is_over f = f.is_released

-- `operator()`
unfoldable pub serve : Request → Service Fsm → Service Fsm
serve request s = Sessions.serve is_over (handle_input request make) s
