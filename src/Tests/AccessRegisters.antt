-- ===== src/Tests/AccessRegisters.antt =====
-- src/daemon/engine/svc/node/access_registers_service.cpp with a channel that asks a node for two registers.
use ocvsmd.Common.{
  ℕ, suc, zero, arith, length, ap, ◌≡◌, refl, true, false, none, some, List, [], ◌∷◌,
}
use ocvsmd.Common.Map.{lookup, insert, emplace, erase}
use ocvsmd.Daemon.CyError.{success, failure, expired}
use ocvsmd.Daemon.AccessRegisters
use ocvsmd.Daemon.AccessRegisters.Wrap.{IsAtWork, hear_answers, hear_answers-IsAtWork}
use ocvsmd.Daemon.AccessRegisters.{
  make, index_mod, KeyValue, Request, scope, register, NodeContext, Fsm, Env, answered,
  handle_input, handle_completed, handle_node_response,
}
use ocvsmd.Daemon.AccessRegisters.Track.{told, keys}
use ocvsmd.Daemon.AccessRegisters.Runs.{here, next, responds, Progress, registers_in_order}
use ocvsmd.Daemon.AccessRegisters.Runs.Collecting.{collect, asked_in, registers_in}

abbrev willing : Env
willing = record { make_client = λ f n. success; more_rounds = 0; request = λ f n. success }

abbrev refusing : Env
refusing = record {
  make_client = λ f n. success;
  more_rounds = 0;
  request = λ f n. failure expired;
}

abbrev item : ℕ → KeyValue
item k = record { key = k ∷ []; value = [] }

abbrev requests : List Request
requests = register (item 2) ∷ register (item 1) ∷ scope 1000 (42 ∷ 42 ∷ []) ∷ []

abbrev begun : Fsm
begun = handle_completed willing true (collect requests)

abbrev waiting : NodeContext
waiting = record { timeout = 1000; reg_index = 0; has_client = true; has_promise = true }

alive : begun.is_released ≡ false
unfolding handle_completed collect handle_input emplace lookup
alive = refl

found : lookup 42 begun.node_id_to_cnxt ≡ some waiting
unfolding handle_completed collect handle_input emplace lookup insert
found = refl

abbrev answered_one : Fsm
answered_one = handle_node_response willing 42 (answered (7 ∷ [])) begun

registers_in_order_example : Progress (asked_in requests) (registers_in requests) answered_one
registers_in_order_example =
    registers_in_order requests willing answered_one (omega arith)
      (next here (responds willing 42 waiting (answered (7 ∷ [])) alive found refl))

finishes : (handle_node_response willing 42 (answered []) answered_one).completions ≡ none ∷ []
unfolding handle_node_response handle_completed collect handle_input emplace lookup insert erase
finishes = refl

-- Where no request can be sent, each register is answered with an error at once.
refused :
    keys (told 42 (handle_completed refusing true (collect requests)).sent)
    ≡ (1 ∷ []) ∷ (2 ∷ []) ∷ []
unfolding told handle_completed collect handle_input emplace lookup insert erase
refused = refl

-- 2 ^ 16 registers.
unfoldable copies : ℕ → List KeyValue
copies zero = []
copies (suc n) = item 1 ∷ copies n

length-copies : (n : ℕ) → length (copies n) ≡ n
unfolding copies
length-copies zero = refl
length-copies (suc n) = ap suc (length-copies n)

abbrev crowded : Fsm
crowded = record (make) {
  processing = true;
  node_id_to_cnxt = (42, waiting) ∷ [];
  registers = copies index_mod;
}

crowded-IsAtWork : IsAtWork 42 (copies index_mod) crowded
unfolding lookup
crowded-IsAtWork = record {
  same = refl;
  alive = refl;
  unended = refl;
  cnxt = waiting;
  found = refl;
  client = refl;
  index = omega arith;
}

hear_answers-IsAtWork_example :
    IsAtWork 42
      (copies index_mod)
      (hear_answers willing 42 (answered (7 ∷ []) ∷ AccessRegisters.expired expired ∷ []) crowded)
hear_answers-IsAtWork_example =
    hear_answers-IsAtWork willing 42 (copies index_mod) (omega (arith, length-copies index_mod))
      (answered (7 ∷ []) ∷ AccessRegisters.expired expired ∷ []) crowded crowded-IsAtWork
