-- ===== src/Sdk/ListRegistersClient.antt =====
-- src/sdk/svc/node/list_registers_client.cpp
pub mod Listing
use ocvsmd.Common.{ℕ, ◌≡◌, refl, Option, none, some, List, [], ◌∷◌, ◌++◌, length, map}
use ocvsmd.Common.Int.{ℤ}
use ocvsmd.Common.Map.{Map, lookup, insert, emplace, lookup-emplace_self}
use ocvsmd.Error.{Error, OptError, DsdlError, dsdl_error_to_opt_error}
use ocvsmd.Sdk.NodeClient.{Client, chunks, to_u64}

-- `NodeRegisters`
pub data NodeRegisters : Type 0 where
  failure : Error → NodeRegisters
  success : List (List ℕ) → NodeRegisters

-- `Spec::Request`
pub record Request : Type 0 where
  pub timeout_us : ℕ
  pub node_ids : List ℕ

-- `Spec::Response`
pub record Input : Type 0 where
  pub node_id : ℕ
  pub error : DsdlError
  pub item : List ℕ

unfoldable pub build_requests : List ℕ → ℤ → List Request
unfolding chunks
build_requests node_ids timeout =
    map (λ chunk. record { timeout_us = to_u64 timeout; node_ids = chunk })
      (chunks (length node_ids) node_ids)

-- A name goes to the end of the node's list; after a failure names are dropped.
abbrev pub add_name : ℕ → List ℕ → Option NodeRegisters → Map NodeRegisters → Map NodeRegisters
add_name node_id name none m = insert node_id (success (name ∷ [])) m
add_name node_id name (some (failure e)) m = m
add_name node_id name (some (success regs)) m = insert node_id (success (regs ++ name ∷ [])) m

abbrev pub gathered_by : OptError → Input → Map NodeRegisters → Map NodeRegisters
gathered_by (some e) input m = emplace input.node_id (failure e) m
gathered_by none input m = add_name input.node_id input.item (lookup input.node_id m) m

-- `handleEvent(Input)`
unfoldable pub handle_input : Input → Client Request NodeRegisters → Client Request NodeRegisters
unfolding dsdl_error_to_opt_error
handle_input input c = record c {
  gathered = gathered_by (dsdl_error_to_opt_error input.error) input c.gathered;
}

-- `emplace` keeps what is there: a failure after the first name is lost, and the names that came before
-- it look like the node's whole list.
pub late_failure_lost :
    (input : Input) (e : Error) (regs : List (List ℕ)) (c : Client Request NodeRegisters)
    → dsdl_error_to_opt_error input.error ≡ some e
    → lookup input.node_id c.gathered ≡ some (success regs)
    → lookup input.node_id (handle_input input c).gathered ≡ some (success regs)
unfolding handle_input
late_failure_lost input e regs c failed there =
    rw failed (rw (lookup-emplace_self input.node_id (failure e) c.gathered) (rw there refl))
