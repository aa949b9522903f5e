-- ===== src/Daemon/ExecCmd/Counter.antt =====
-- Only a new channel moves the counter of state machines
-- (src/daemon/engine/svc/node/exec_cmd_service.cpp).
use ocvsmd.Common.{
  ℕ, ◌≡◌, refl, ◌∙◌, Bool, true, false, Option, none, some, List, [], ◌∷◌, if_cases,
}
use ocvsmd.Common.Map.{Map, keys, lookup, insert, erase}
use ocvsmd.Error.{OptError}
use ocvsmd.Daemon.ExecCmd.{
  ResponsePayload, Request, NodeContext, Fsm, Service, Env, Outcome, success, failure, NodeResult,
  answered, expired, set_fsm, set_contexts, release_fsm_by, complete, send_response,
  complete_if_empty, release_node_in, release_node_context, answer, handle_node_response, input_in,
  handle_input, requested, start_cy_exec_cmd_rpc_call_for, client_made, make_for, make_in,
  make_cy_rpc_client, make_cy_rpc_clients, process, completed_in, handle_completed, no_payload,
}

abbrev pub IsKept : Service → Service → Type 0
IsKept s t = t.next_fsm_id ≡ s.next_fsm_id

module _ (id : ℕ) where
  complete_if_empty-IsKept :
      (m : Map NodeContext) (s : Service) → IsKept s (complete_if_empty m id s)
  unfolding complete release_fsm_by
  complete_if_empty-IsKept [] s = refl
  complete_if_empty-IsKept (c ∷ m) s = refl

  release-IsKept : (n : ℕ) (s : Service) → IsKept s (release_node_context id n s)
  unfolding release_node_context
  release-IsKept n s = within (lookup id s.id_to_fsm)
    where
      within : (o : Option Fsm) → IsKept s (release_node_in o id n s)
      within none = refl
      within (some f) =
          complete_if_empty-IsKept (erase n f.node_id_to_cnxt)
            (set_contexts id f (erase n f.node_id_to_cnxt) s)

  answer-IsKept :
      (n : ℕ) (p : ResponsePayload) (o : OptError) (s : Service) → IsKept s (answer id n p o s)
  unfolding answer send_response
  answer-IsKept n p o s = release-IsKept n (send_response id n p o s)

  pub handle_node_response-IsKept :
      (n : ℕ) (res : NodeResult) (s : Service) → IsKept s (handle_node_response id n res s)
  unfolding handle_node_response
  handle_node_response-IsKept n (answered p) s = answer-IsKept n p none s
  handle_node_response-IsKept n (expired o) s = answer-IsKept n no_payload o s

  pub handle_input-IsKept : (input : Request) (s : Service) → IsKept s (handle_input id input s)
  unfolding handle_input
  handle_input-IsKept input s = within (lookup id s.id_to_fsm)
    where
      within : (o : Option Fsm) → IsKept s (input_in o id input s)
      within none = refl
      within (some f) = if_cases (IsKept s) f.processing (λ _. refl) (λ _. refl)

  module _ (env : Env) where
    requested-IsKept :
        (o : Outcome) (n : ℕ) (f : Fsm) (c : NodeContext) (s : Service)
        → IsKept s (requested env o id n f c s)
    requested-IsKept (failure e) n f c s = answer-IsKept n no_payload e s
    requested-IsKept success n f c s = refl

    start-IsKept :
        (n : ℕ) (f : Fsm) (c : NodeContext) (s : Service)
        → IsKept s (start_cy_exec_cmd_rpc_call_for env id n f c s)
    unfolding start_cy_exec_cmd_rpc_call_for
    start-IsKept n f c s =
        if_cases (IsKept s) c.has_client (λ _. requested-IsKept (env.request s n) n f c s)
          (λ _. release-IsKept n s)

    make-IsKept : (n : ℕ) (s : Service) → IsKept s (make_cy_rpc_client env id n s)
    unfolding make_cy_rpc_client
    make-IsKept n s = within (lookup id s.id_to_fsm)
      where
        made : (o : Outcome) (f : Fsm) (c : NodeContext) → IsKept s (client_made env o id n f c s)
        made (failure e) f c = answer-IsKept n no_payload e s
        made success f c =
            let c' = record c { has_client = true } in
            let f' = record f { node_id_to_cnxt = insert n c' f.node_id_to_cnxt } in
            start-IsKept n f' c' (set_fsm id f' s)

        at : (o : Option NodeContext) (f : Fsm) → IsKept s (make_for env o id n f s)
        at none f = refl
        at (some c) f = made (env.make_client s n) f c

        within : (o : Option Fsm) → IsKept s (make_in env o id n s)
        within none = refl
        within (some f) = at (lookup n f.node_id_to_cnxt) f

    make_each-IsKept : (ns : List ℕ) (s : Service) → IsKept s (make_cy_rpc_clients env id ns s)
    unfolding make_cy_rpc_clients
    make_each-IsKept [] s = refl
    make_each-IsKept (n ∷ ns) s =
        make_each-IsKept ns (make_cy_rpc_client env id n s) ∙ make-IsKept n s

    pub handle_completed-IsKept :
        (keep_alive : Bool) (s : Service) → IsKept s (handle_completed env id keep_alive s)
    unfolding handle_completed complete release_fsm_by
    handle_completed-IsKept keep_alive s = within (lookup id s.id_to_fsm) keep_alive
      where
        processed : (m : Map NodeContext) (t : Service) → IsKept t (process env m id t)
        processed [] t = refl
        processed (c ∷ m) t = make_each-IsKept (keys (c ∷ m)) t

        within : (o : Option Fsm) (k : Bool) → IsKept s (completed_in env o id k s)
        within none k = refl
        within (some f) false = refl
        within (some f) true =
            if_cases (IsKept s) f.processing (λ _. refl)
              (λ _. processed f.node_id_to_cnxt (set_fsm id (record f { processing = true }) s))
