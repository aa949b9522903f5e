-- ===== src/Daemon/ListRegisters/Names.antt =====
-- The names of a node's registers, one answer after the other
-- (src/daemon/engine/svc/node/list_registers_service.cpp).
use ocvsmd.Common.{
  ℕ, ◌+◌, ◌%◌, ◌^◌, ◌≡◌, ◌≢◌, refl, sym, ◌∙◌, ap, subst, true, false, none, some, List, [], ◌∷◌,
  All, if◌then◌else◌, ==_refl,
}
use ocvsmd.Common.Map.{Map, lookup, insert, erase, lookup-insert, lookup-erase}
use ocvsmd.Daemon.CyError.{success}
use ocvsmd.Daemon.ListRegisters.{
  NodeContext, Response, Called, Fsm, Env, answered, set_contexts, complete, complete_if_empty,
  release_node_context, send_response, fault, next_index, requested, start_cy_reg_list_rpc_call_for,
  respond_in, handle_node_response,
}

-- A node that answers these names.
unfoldable pub hear_names : Env → ℕ → List (List ℕ) → Fsm → Fsm
unfolding handle_node_response
hear_names env node_id [] f = f
hear_names env node_id (name ∷ names) f =
    hear_names env node_id names (handle_node_response env node_id (answered name) f)

abbrev pub response : ℕ → List ℕ → Response
response node_id name = record { node_id = node_id; item = name; opt_error = none }

-- What should be sent for the names, and asked of the node, the newest first.
abbrev pub told_names : ℕ → List (List ℕ) → List Response → List Response
told_names node_id [] sent = sent
told_names node_id (name ∷ names) sent = told_names node_id names (response node_id name ∷ sent)

abbrev pub asked : ℕ → ℕ → List (List ℕ) → List Called → List Called
asked node_id index [] calls = calls
asked node_id index (name ∷ names) calls =
    let next = (index + 1) % 2 ^ 16 in
    asked node_id next names (record { node_id = node_id; index = next } ∷ calls)

self-insert : (n : ℕ) (c : NodeContext) (m : Map NodeContext) → lookup n (insert n c m) ≡ some c
self-insert n c m = lookup-insert n n c m ∙ rw (==_refl n) refl

-- The state after one name.
abbrev after_name : ℕ → List ℕ → NodeContext → Fsm → Fsm
after_name node_id name c f =
    let next = next_index c in
    record f {
      node_id_to_cnxt =
          insert node_id (record next { has_promise = true })
            (insert node_id next f.node_id_to_cnxt);
      sent = response node_id name ∷ f.sent;
      calls = record { node_id = node_id; index = next.reg_index } ∷ f.calls;
    }

module _ (env : Env) (node_id : ℕ) (reachable : (f : Fsm) → env.request f node_id ≡ success) where
  start-sent :
      (c : NodeContext) (f : Fsm)
      → c.has_client ≡ true
      → start_cy_reg_list_rpc_call_for env node_id c f ≡ requested env success node_id c f
  unfolding start_cy_reg_list_rpc_call_for
  start-sent c f has =
      subst
        (λ b.
          (if b
            then requested env (env.request f node_id) node_id c f
            else release_node_context node_id f)
          ≡ requested env success node_id c f)
        (sym has) (ap (λ o. requested env o node_id c f) (reachable f))

  name-heard :
      (name : List ℕ) (c : NodeContext) (f : Fsm)
      → name ≢ []
      → f.is_released ≡ false
      → lookup node_id f.node_id_to_cnxt ≡ some c
      → c.has_client ≡ true
      → handle_node_response env node_id (answered name) f ≡ after_name node_id name c f
  unfolding handle_node_response send_response
  name-heard [] c f full alive there has = absurd (full refl)
  name-heard (byte ∷ name) c f full alive there has =
      subst
        (λ b.
          (if b
            then fault f
            else respond_in env (lookup node_id f.node_id_to_cnxt) node_id (answered (byte ∷ name))
                f)
          ≡ after_name node_id (byte ∷ name) c f)
        (sym alive)
        (ap (λ o. respond_in env o node_id (answered (byte ∷ name)) f) there
          ∙ start-sent (next_index c) _ has)

  last_heard :
      (c : NodeContext) (f : Fsm)
      → f.is_released ≡ false
      → lookup node_id f.node_id_to_cnxt ≡ some c
      → handle_node_response env node_id (answered []) f ≡ release_node_context node_id f
  unfolding handle_node_response
  last_heard c f alive there =
      subst
        (λ b.
          (if b
            then fault f
            else respond_in env (lookup node_id f.node_id_to_cnxt) node_id (answered []) f)
          ≡ release_node_context node_id f)
        (sym alive) (ap (λ o. respond_in env o node_id (answered []) f) there)

  abbrev Ended : Fsm → Fsm → Type 0
  Ended f g = (g.sent ≡ f.sent) × (g.calls ≡ f.calls) × (lookup node_id g.node_id_to_cnxt ≡ none)

  empty-Ended :
      (m : Map NodeContext) (f : Fsm)
      → lookup node_id m ≡ none
      → Ended f (complete_if_empty m (set_contexts m f))
  unfolding complete lookup
  empty-Ended [] f left = (refl, refl, refl)
  empty-Ended (c ∷ m) f left = (refl, refl, left)

  release-Ended : (f : Fsm) → Ended f (release_node_context node_id f)
  unfolding release_node_context
  release-Ended f =
      empty-Ended (erase node_id f.node_id_to_cnxt) f
        (lookup-erase node_id node_id f.node_id_to_cnxt ∙ rw (==_refl node_id) refl)

  -- A node that answers every request, with names and then an empty one, is told of as just these names in
  -- their order, each asked for by the next index, which wraps at 2 ^ 16; then its context is gone.
  pub hear_names_lem :
      (names : List (List ℕ)) (c : NodeContext) (f : Fsm)
      → All (λ name. name ≢ []) names
      → f.is_released ≡ false
      → lookup node_id f.node_id_to_cnxt ≡ some c
      → c.has_client ≡ true
      → let g = handle_node_response env node_id (answered []) (hear_names env node_id names f) in
        (g.sent ≡ told_names node_id names f.sent)
        × (g.calls ≡ asked node_id c.reg_index names f.calls)
        × (lookup node_id g.node_id_to_cnxt ≡ none)
  unfolding hear_names
  hear_names_lem [] c f full alive there has =
      subst (Ended f) (sym (last_heard c f alive there)) (release-Ended f)
  hear_names_lem (name ∷ names) c f full alive there has =
      subst
        (λ g.
          let h = handle_node_response env node_id (answered []) (hear_names env node_id names g) in
          (h.sent ≡ told_names node_id names (response node_id name ∷ f.sent))
          × (h.calls ≡ asked node_id c.reg_index (name ∷ names) f.calls)
          × (lookup node_id h.node_id_to_cnxt ≡ none))
        (sym (name-heard name c f full.0 alive there has))
        (hear_names_lem names (record (next_index c) { has_promise = true })
          (after_name node_id name c f) full.1 alive (self-insert node_id _ _) has)
