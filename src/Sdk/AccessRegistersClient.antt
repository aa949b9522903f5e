-- ===== src/Sdk/AccessRegistersClient.antt =====
-- src/sdk/svc/node/access_registers_client.cpp
pub mod Gathering
pub mod Access
use ocvsmd.Common.{ℕ, Bool, true, false, Option, none, some, List, [], ◌∷◌, ◌++◌, length, map}
use ocvsmd.Common.Int.{ℤ}
use ocvsmd.Common.Map.{Map, lookup, insert, emplace}
use ocvsmd.Error.{Error, OptError}
use ocvsmd.Daemon.AccessRegisters.{KeyValue, Request, scope, register, Response}
use ocvsmd.Sdk.NodeClient.{Client, chunks, to_u64}

-- `RegKeyValueOrErr`: a register's value or its error.
pub data ValueOrError : Type 0 where
  error_at : (key : List ℕ) → Error → ValueOrError
  value_at : (key value : List ℕ) → ValueOrError

-- `NodeRegisters`
pub data NodeRegisters : Type 0 where
  failure : Error → NodeRegisters
  success : List ValueOrError → NodeRegisters

unfoldable pub build_scope_requests : List ℕ → ℤ → List Request
unfolding chunks
build_scope_requests node_ids timeout =
    map (scope (to_u64 timeout)) (chunks (length node_ids) node_ids)

unfoldable pub build_read_register_requests : List (List ℕ) → List Request
build_read_register_requests registers =
    map (λ key. register (record { key = key; value = [] })) registers

unfoldable pub build_write_register_requests : List KeyValue → List Request
build_write_register_requests registers = map register registers

-- The requests of the two constructors.
unfoldable pub write_requests : List ℕ → List KeyValue → ℤ → List Request
unfolding build_scope_requests build_write_register_requests
write_requests node_ids registers timeout =
    build_scope_requests node_ids timeout ++ build_write_register_requests registers

unfoldable pub read_requests : List ℕ → List (List ℕ) → ℤ → List Request
unfolding build_scope_requests build_read_register_requests
read_requests node_ids registers timeout =
    build_scope_requests node_ids timeout ++ build_read_register_requests registers

abbrev pub entry : OptError → KeyValue → ValueOrError
entry none item = value_at item.key item.value
entry (some e) item = error_at item.key e

-- The list of a node that has failed takes no more.
abbrev pub add_entry :
    ℕ → ValueOrError → Option NodeRegisters → Map NodeRegisters → Map NodeRegisters
add_entry node_id v none m = insert node_id (success (v ∷ [])) m
add_entry node_id v (some (failure e)) m = m
add_entry node_id v (some (success regs)) m = insert node_id (success (regs ++ v ∷ [])) m

-- By the error and the key: an error without a key is the node's own.
abbrev pub gathered_by : ℕ → OptError → KeyValue → List ℕ → Map NodeRegisters → Map NodeRegisters
gathered_by node_id (some e) item [] m = emplace node_id (failure e) m
gathered_by node_id (some e) item (c ∷ key) m =
    add_entry node_id (entry (some e) item) (lookup node_id m) m
gathered_by node_id none item key m = add_entry node_id (entry none item) (lookup node_id m) m

-- `handleEvent(Input)`, the response's error already read back from the wire.
unfoldable pub handle_input : Response → Map NodeRegisters → Map NodeRegisters
handle_input input m = gathered_by input.node_id input.opt_error input.item input.item.key m
