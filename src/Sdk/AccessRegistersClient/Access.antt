-- ===== src/Sdk/AccessRegistersClient/Access.antt =====
-- Registers accessed from the client to the nodes and back: src/sdk/svc/node/access_registers_client.cpp and
-- src/daemon/engine/svc/node/access_registers_service.cpp on a channel that keeps the order of messages.
use ocvsmd.Common.{ℕ, ◌≡◌, ◌⊎◌, Bool, true, false, ◌||◌, none, some, List, [], ◌∷◌, ◌++◌}
use ocvsmd.Common.Int.{ℤ}
use ocvsmd.Common.Map.{lookup}
use ocvsmd.Daemon.AccessRegisters.{KeyValue, Request, Response}
use ocvsmd.Daemon.AccessRegisters.Track.{told, keys, names, IsFailure, Track}
use ocvsmd.Daemon.AccessRegisters.Runs.Collecting.{named, register_of}
use ocvsmd.Sdk.AccessRegistersClient.{failure, write_requests}
use ocvsmd.Sdk.AccessRegistersClient.Gathering.{gather, listed}

-- Messages in the order in which the service lists its inputs.
unfoldable pub newest_first : List Request → List Request → List Request
newest_first [] earlier = earlier
newest_first (r ∷ rs) earlier = newest_first rs (r ∷ earlier)

abbrev named_by : List Request → ℕ → Bool
named_by [] n = false
named_by (r ∷ rs) n = named r n || named_by rs n

abbrev registers_of : List Request → List KeyValue
registers_of [] = []
registers_of (r ∷ rs) = register_of r ++ registers_of rs

module _ (node_ids : List ℕ) (registers : List KeyValue) (timeout : ℤ) where
  -- The service's inputs from the client's requests.
  abbrev pub client_inputs : List Request
  client_inputs = newest_first (write_requests node_ids registers timeout) []

-- What the client has of a node, by whether it asked for it: the registers by what the service told of
-- each, its value or its error; or the failure that the service told of for the node.
abbrev pub Accessed : List KeyValue → Bool → List Response → ℕ → Type 0
Accessed registers true sent n =
    ((lookup n (gather sent) ≡ listed (told n sent)) × (keys (told n sent) ≡ names registers))
    ⊎ ((h : IsFailure (told n sent)) × (lookup n (gather sent) ≡ some (failure h.error)))
Accessed registers false sent n = lookup n (gather sent) ≡ none
