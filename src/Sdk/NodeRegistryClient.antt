-- ===== src/Sdk/NodeRegistryClient.antt =====
-- `NodeRegistryClientImpl` (src/sdk/node_registry_client.cpp) and the calls for one node of its interface
-- (include/ocvsmd/sdk/node_registry_client.hpp).
use ocvsmd.Common.{
  ℕ, ◌≤◌, ◌≡◌, refl, sym, ◌∙◌, ap, ◌↔◌, Bool, true, false, ◌||◌, Option, none, some, List, [], ◌∷◌,
  length, map, ltb, if◌then◌else◌, All, Bool-cases, arith, inl, inr,
}
use ocvsmd.Common.Int.{ℤ}
use ocvsmd.Common.Map.{lookup}
use ocvsmd.Error.{Error, error, invalid_argument, no_entry}
use ocvsmd.Daemon.AccessRegisters.{KeyValue, Request}
use ocvsmd.Sdk.NodeClient.{Result, failure, success}
use ocvsmd.Sdk.AccessRegistersClient.{read_requests, write_requests}
use ocvsmd.Sdk.ListRegistersClient

-- A sender: a failure at once, or a client with these requests.
pub data Sender (R : Type 0) : Type 0 where
  just : Error → Sender R
  of_requests : List R → Sender R

unfoldable pub list : List ℕ → ℤ → Sender ListRegistersClient.Request
unfolding ListRegistersClient.build_requests
list node_ids timeout = of_requests (ListRegistersClient.build_requests node_ids timeout)

-- The loop over the names, with the capacity of a request's name.
unfoldable pub is_too_long : ℕ → List (List ℕ) → Bool
is_too_long capacity [] = false
is_too_long capacity (key ∷ keys) = ltb capacity (length key) || is_too_long capacity keys

unfoldable pub read : ℕ → List ℕ → List (List ℕ) → ℤ → Sender Request
unfolding is_too_long read_requests
read capacity node_ids registers timeout =
    if is_too_long capacity registers
    then just (error invalid_argument)
    else of_requests (read_requests node_ids registers timeout)

unfoldable pub write : ℕ → List ℕ → List KeyValue → ℤ → Sender Request
unfolding is_too_long write_requests
write capacity node_ids registers timeout =
    if is_too_long capacity (map (λ (reg : KeyValue). reg.key) registers)
    then just (error invalid_argument)
    else of_requests (write_requests node_ids registers timeout)

-- What one node's `list`, `read` and `write` make of the result for all nodes; a node's own failure is a
-- value here.
abbrev pub found : {V : Type 0} → (Error → V) → Option V → V
found fail none = fail (error no_entry)
found fail (some v) = v

unfoldable pub of_node : {V : Type 0} → (Error → V) → ℕ → Result V → V
of_node fail node_id (failure e) = fail e
of_node fail node_id (success gathered) = found fail (lookup node_id gathered)

or_true : {a : Bool} (b : Bool) → a ≡ true → (a || b) ≡ true
or_true b e = ap (λ a. a || b) e

or_false : {a : Bool} (b : Bool) → a ≡ false → (a || b) ≡ b
or_false b e = ap (λ a. a || b) e

-- No name is too long just if all fit.
pub is_too_long-eq-false_iff :
    (capacity : ℕ) (keys : List (List ℕ))
    → (is_too_long capacity keys ≡ false) ↔ All (λ key. length key ≤ capacity) keys
unfolding is_too_long
is_too_long-eq-false_iff capacity [] = (λ e. tt, λ h. refl)
is_too_long-eq-false_iff capacity (key ∷ keys) = elim (Bool-cases (ltb capacity (length key))) [
  | inl long ↦ (
    λ e. let same = or_true (is_too_long capacity keys) long in cc (e, same),
    λ h. absurd (ground (arith, h.0, long)),
  )
  | inr fits ↦
      let same = or_false (is_too_long capacity keys) fits in
      (
        λ e. (ground (arith, fits), (is_too_long-eq-false_iff capacity keys).0 (sym same ∙ e)),
        λ h. same ∙ (is_too_long-eq-false_iff capacity keys).1 h.1,
      )
]
