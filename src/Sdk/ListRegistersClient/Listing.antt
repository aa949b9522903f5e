-- ===== src/Sdk/ListRegistersClient/Listing.antt =====
-- Names from a node to the client that asked for them: src/sdk/svc/node/list_registers_client.cpp and
-- src/daemon/engine/svc/node/list_registers_service.cpp on a channel that keeps the order of messages.
use ocvsmd.Common.{
  ℕ, ◌≡◌, ◌≢◌, refl, sym, ◌∙◌, ap, true, false, Option, none, some, List, [], ◌∷◌, ◌++◌, All,
  append-nil, append_assoc, ==_refl,
}
use ocvsmd.Common.Map.{Map, lookup, insert, lookup-insert}
use ocvsmd.Error.{opt_error_to_dsdl_error, dsdl_error_to_opt_error}
use ocvsmd.Daemon.CyError.{success}
use ocvsmd.Daemon.ListRegisters.{NodeContext, Response, Fsm, Env, answered, handle_node_response}
use ocvsmd.Daemon.ListRegisters.Names.{hear_names, response, told_names, asked, hear_names_lem}
use ocvsmd.Sdk.NodeClient.{Client}
use ocvsmd.Sdk.ListRegistersClient
use ocvsmd.Sdk.ListRegistersClient.{
  NodeRegisters, failure, Request, Input, add_name, gathered_by, handle_input,
}

abbrev input_of : Response → Input
input_of r = record {
  node_id = r.node_id;
  error = opt_error_to_dsdl_error r.opt_error;
  item = r.item;
}

-- The responses of the service, the newest first.
unfoldable pub hear : List Response → Client Request NodeRegisters → Client Request NodeRegisters
unfolding handle_input opt_error_to_dsdl_error
hear [] c = c
hear (r ∷ earlier) c = handle_input (input_of r) (hear earlier c)

-- Names behind those that the client has of a node.
abbrev pub with_names : Option NodeRegisters → List (List ℕ) → Option NodeRegisters
with_names none [] = none
with_names none (name ∷ names) = some (ListRegistersClient.success (name ∷ names))
with_names (some (failure e)) names = some (failure e)
with_names (some (ListRegistersClient.success regs)) names =
    some (ListRegistersClient.success (regs ++ names))

with_names-cons :
    (o : Option NodeRegisters) (name : List ℕ) (names : List (List ℕ))
    → with_names (with_names o (name ∷ [])) names ≡ with_names o (name ∷ names)
with_names-cons none name names = refl
with_names-cons (some (failure e)) name names = refl
with_names-cons (some (ListRegistersClient.success regs)) name names =
    ap (λ l. some (ListRegistersClient.success l)) (append_assoc regs (name ∷ []) names)

with_names-nil : (o : Option NodeRegisters) → with_names o [] ≡ o
with_names-nil none = refl
with_names-nil (some (failure e)) = refl
with_names-nil (some (ListRegistersClient.success regs)) =
    ap (λ l. some (ListRegistersClient.success l)) (append-nil regs)

self-insert : (n : ℕ) (v : NodeRegisters) (m : Map NodeRegisters) → lookup n (insert n v m) ≡ some v
self-insert n v m = lookup-insert n n v m ∙ rw (==_refl n) refl

self-add_name :
    (n : ℕ) (name : List ℕ) (o : Option NodeRegisters) (m : Map NodeRegisters)
    → lookup n m ≡ o
    → lookup n (add_name n name o m) ≡ with_names o (name ∷ [])
self-add_name n name none m there = self-insert n _ m
self-add_name n name (some (failure e)) m there = there
self-add_name n name (some (ListRegistersClient.success regs)) m there = self-insert n _ m

module _ (n : ℕ) (c : Client Request NodeRegisters) where
  name-heard :
      (name : List ℕ) (d : Client Request NodeRegisters)
      → lookup n (handle_input (input_of (response n name)) d).gathered
        ≡ with_names (lookup n d.gathered) (name ∷ [])
  unfolding handle_input dsdl_error_to_opt_error opt_error_to_dsdl_error
  name-heard name d = self-add_name n name (lookup n d.gathered) d.gathered refl

  hear-told_names :
      (names : List (List ℕ)) (sent : List Response)
      → lookup n (hear (told_names n names sent) c).gathered
        ≡ with_names (lookup n (hear sent c).gathered) names
  unfolding hear
  hear-told_names [] sent = sym (with_names-nil (lookup n (hear sent c).gathered))
  hear-told_names (name ∷ names) sent =
      hear-told_names names (response n name ∷ sent)
      ∙ ap (λ o. with_names o names) (name-heard name (hear sent c))
      ∙ with_names-cons (lookup n (hear sent c).gathered) name names

-- A node that the service lists, and that answers every request, with any names and then an empty one,
-- is asked for each name by the next index, which wraps at 2 ^ 16, and leaves at the client just these
-- names in their order, behind those that it has of the node; a client that has nothing of a node
-- without registers still has nothing of it.
pub names_listed :
    (env : Env) (node_id : ℕ) (names : List (List ℕ)) (cnxt : NodeContext) (f : Fsm)
    (c : Client Request NodeRegisters)
    → ((g : Fsm) → env.request g node_id ≡ success)
    → All (λ name. name ≢ []) names
    → f.is_released ≡ false
    → lookup node_id f.node_id_to_cnxt ≡ some cnxt
    → cnxt.has_client ≡ true
    → let g = handle_node_response env node_id (answered []) (hear_names env node_id names f) in
      (lookup node_id (hear g.sent c).gathered
        ≡ with_names (lookup node_id (hear f.sent c).gathered) names)
      × (g.calls ≡ asked node_id cnxt.reg_index names f.calls)
      × (lookup node_id g.node_id_to_cnxt ≡ none)
names_listed env node_id names cnxt f c reachable full alive there has =
    let (told, calls, gone) =
      hear_names_lem env node_id reachable names cnxt f full alive there has in
    (
      ap (λ sent. lookup node_id (hear sent c).gathered) told
          ∙ hear-told_names node_id c names f.sent,
      calls,
      gone,
    )
