-- ===== src/Tests/NodeRegistry.antt =====
-- src/sdk/node_registry_client.cpp at concrete inputs.
use ocvsmd.Common.{◌≡◌, refl, [], ◌∷◌}
use ocvsmd.Common.Int.{pos}
use ocvsmd.Common.Map.{lookup}
use ocvsmd.Error.{error, invalid_argument, no_entry}
use ocvsmd.Sdk.NodeClient
use ocvsmd.Sdk.ListRegistersClient.{NodeRegisters}
use ocvsmd.Sdk.NodeRegistryClient.{just, read, is_too_long, of_node}

refused :
    read 2 (42 ∷ []) ((1 ∷ []) ∷ (1 ∷ 2 ∷ 3 ∷ []) ∷ []) (pos 1000) ≡ just (error invalid_argument)
unfolding read is_too_long
refused = refl

-- A node that no response was sent for.
missing :
    of_node NodeRegisters.failure 42 (NodeClient.success [])
    ≡ NodeRegisters.failure (error no_entry)
unfolding of_node lookup
missing = refl
