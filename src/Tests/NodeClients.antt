-- ===== src/Tests/NodeClients.antt =====
-- The clients of src/sdk/svc/node at concrete inputs.
use ocvsmd.Common.{ℕ, ◌≡◌, refl, true, List, [], ◌∷◌, map, length}
use ocvsmd.Common.Int.{pos, negsuc}
use ocvsmd.Daemon.CyError.{success, failure, expired}
use ocvsmd.Daemon.AccessRegisters.{KeyValue, Fsm, Env, handle_completed}
use ocvsmd.Daemon.AccessRegisters.Runs.Collecting.{collect}
use ocvsmd.Sdk.NodeClient.{chunks, to_u64}
use ocvsmd.Sdk.AccessRegistersClient.Access.{client_inputs}

abbrev refusing : Env
refusing = record {
  make_client = λ f n. success;
  more_rounds = 0;
  request = λ f n. failure expired;
}

abbrev registers : List KeyValue
registers = record { key = 1 ∷ []; value = 7 ∷ [] } ∷ record { key = 2 ∷ []; value = [] } ∷ []

abbrev node_ids : List ℕ
node_ids = 42 ∷ 43 ∷ []

abbrev ended : Fsm
ended = handle_completed refusing true (collect (client_inputs node_ids registers (pos 1000)))

-- A count below zero is not clamped.
negative_timeout : to_u64 (negsuc 0) ≡ 18446744073709551615
negative_timeout = refl

one_chunk : map length (chunks 3 (1 ∷ 2 ∷ 3 ∷ [])) ≡ 3 ∷ []
unfolding chunks
one_chunk = refl
