-- ===== src/Tests/ListRegisters.antt =====
-- src/daemon/engine/svc/node/list_registers_service.cpp and its client on a channel that lists two nodes.
use ocvsmd.Common.{ℕ, ◌≡◌, refl, true, false, none, some, List, [], ◌∷◌}
use ocvsmd.Common.Map.{lookup, insert, emplace, erase}
use ocvsmd.Daemon.CyError.{success, expired}
use ocvsmd.Daemon.ListRegisters
use ocvsmd.Daemon.ListRegisters.{
  NodeContext, Fsm, Env, answered, handle_input, handle_completed, handle_node_response,
}
use ocvsmd.Daemon.ListRegisters.Names.{hear_names, asked}
use ocvsmd.Sdk.NodeClient
use ocvsmd.Sdk.NodeClient.{Client}
use ocvsmd.Sdk.ListRegistersClient.{NodeRegisters, Request}
use ocvsmd.Sdk.ListRegistersClient.Listing.{hear, with_names, names_listed}

abbrev willing : Env
willing = record { make_client = λ f n. success; request = λ f n. success }

abbrev begun : Fsm
begun =
    handle_completed willing true
      (handle_input (record { timeout_us = 1000; node_ids = 42 ∷ 43 ∷ 42 ∷ [] }) ListRegisters.make)

abbrev waiting : NodeContext
waiting = record { timeout = 1000; reg_index = 0; has_client = true; has_promise = true }

alive : begun.is_released ≡ false
unfolding handle_completed handle_input emplace lookup insert
alive = refl

found : lookup 42 begun.node_id_to_cnxt ≡ some waiting
unfolding handle_completed handle_input emplace lookup insert
found = refl

abbrev client : Client Request NodeRegisters
client = NodeClient.make []

abbrev names : List (List ℕ)
names = (7 ∷ []) ∷ (8 ∷ 9 ∷ []) ∷ []

abbrev listed : Fsm
listed = handle_node_response willing 42 (answered []) (hear_names willing 42 names begun)

names_listed_example :
    (lookup 42 (hear listed.sent client).gathered
      ≡ with_names (lookup 42 (hear begun.sent client).gathered) names)
    × (listed.calls ≡ asked 42 0 names begun.calls)
    × (lookup 42 listed.node_id_to_cnxt ≡ none)
names_listed_example =
    names_listed willing 42 names waiting begun client (λ g. refl) (λ e. cc, (λ e. cc, tt)) alive
      found refl

-- The channel is completed with the last node, and a failure of a node is told.
finishes :
    (handle_node_response willing 43
      (ListRegisters.expired expired)
      (handle_node_response willing 42 (answered []) begun)).completions
    ≡ none ∷ []
unfolding handle_node_response handle_completed handle_input emplace lookup insert erase
finishes = refl
