-- ===== src/Daemon/ExecCmd/Frame.antt =====
-- What the channel of one state machine has been told, and that the others do not change it
-- (src/daemon/engine/svc/node/exec_cmd_service.cpp).
use ocvsmd.Common.{
  ℕ, suc, ◌≡◌, refl, ◌∙◌, Bool, true, false, Option, none, some, List, [], ◌∷◌, ◌==◌, if◌then◌else◌,
  ◌&&◌, if_cases,
}
use ocvsmd.Common.Map.{Map, keys, lookup, insert, erase, lookup-insert, lookup-erase}
use ocvsmd.Error.{OptError, error, canceled}
use ocvsmd.Daemon.ExecCmd.{
  ResponsePayload, Request, NodeContext, Fsm, Sent, Service, Env, Outcome, success, failure,
  NodeResult, answered, expired, set_fsm, set_contexts, fault, release_fsm_by, complete,
  send_response, complete_if_empty, release_node_in, release_node_context, answer,
  handle_node_response, input_in, handle_input, requested, start_cy_exec_cmd_rpc_call_for,
  client_made, make_for, make_in, make_cy_rpc_client, make_cy_rpc_clients, process, completed_in,
  handle_completed,
}

-- How many answers of a node the channel was given.
unfoldable pub answers : ℕ → ℕ → List Sent → ℕ
answers id node_id [] = 0
answers id node_id (r ∷ rs) =
    let n = answers id node_id rs in if (r.fsm_id == id) && (r.node_id == node_id) then suc n else n

-- The completions of the channel.
unfoldable pub completions_of : ℕ → List (ℕ × OptError) → List OptError
completions_of id [] = []
completions_of id ((i, o) ∷ rest) =
    let os = completions_of id rest in if i == id then o ∷ os else os

-- The state machine and what its channel was told are as before.
pub record Same (id : ℕ) (s t : Service) : Type 0 where
  pub fsm : lookup id t.id_to_fsm ≡ lookup id s.id_to_fsm
  pub counts : (node_id : ℕ) → answers id node_id t.sent ≡ answers id node_id s.sent
  pub ends : completions_of id t.completions ≡ completions_of id s.completions

module _ (id : ℕ) where
  pub Same-refl : (s : Service) → Same id s s
  Same-refl s = record { fsm = refl; counts = λ n. refl; ends = refl }

  pub Same-trans : (s t u : Service) → Same id s t → Same id t u → Same id s u
  Same-trans s t u a b = record {
    fsm = b.fsm ∙ a.fsm;
    counts = λ n. b.counts n ∙ a.counts n;
    ends = b.ends ∙ a.ends;
  }

module _ (id other : ℕ) (ne : (other == id) ≡ false) where
  pub set_fsm-Same : (f : Fsm) (s t : Service) → Same id s t → Same id s (set_fsm other f t)
  set_fsm-Same f s t x = record {
    fsm = lookup-insert other id f t.id_to_fsm ∙ rw ne x.fsm;
    counts = x.counts;
    ends = x.ends;
  }

  complete-Same : (o : OptError) (s t : Service) → Same id s t → Same id s (complete other o t)
  unfolding complete release_fsm_by completions_of
  complete-Same o s t x = record {
    fsm = lookup-erase other id t.id_to_fsm ∙ rw ne x.fsm;
    counts = x.counts;
    ends = rw ne x.ends;
  }

  fault-Same : (s t : Service) → Same id s t → Same id s (fault t)
  fault-Same s t x = record { fsm = x.fsm; counts = x.counts; ends = x.ends }

  release_node_in-Same :
      (o : Option Fsm) (node_id : ℕ) (s t : Service)
      → Same id s t
      → Same id s (release_node_in o other node_id t)
  release_node_in-Same none node_id s t x = fault-Same s t x
  release_node_in-Same (some f) node_id s t x = dropped (erase node_id f.node_id_to_cnxt)
    where
      dropped :
          (m : Map NodeContext) → Same id s (complete_if_empty m other (set_contexts other f m t))
      dropped [] = complete-Same none s _ (set_fsm-Same _ s t x)
      dropped (c ∷ m) = set_fsm-Same _ s t x

  release-Same :
      (node_id : ℕ) (s t : Service) → Same id s t → Same id s (release_node_context other node_id t)
  unfolding release_node_context
  release-Same node_id s t x = release_node_in-Same (lookup other t.id_to_fsm) node_id s t x

  answer-Same :
      (node_id : ℕ) (p : ResponsePayload) (o : OptError) (s t : Service)
      → Same id s t
      → Same id s (answer other node_id p o t)
  unfolding answer send_response answers
  answer-Same node_id p o s t x =
      release-Same node_id s _
        (record { fsm = x.fsm; counts = λ n. rw ne (x.counts n); ends = x.ends })

  pub handle_node_response-Same :
      (node_id : ℕ) (r : NodeResult) (s : Service)
      → Same id s (handle_node_response other node_id r s)
  unfolding handle_node_response
  handle_node_response-Same node_id (answered p) s = answer-Same node_id p none s s (Same-refl id s)
  handle_node_response-Same node_id (expired o) s = answer-Same node_id _ o s s (Same-refl id s)

  pub handle_input-Same :
      (input : Request) (s t : Service) → Same id s t → Same id s (handle_input other input t)
  unfolding handle_input
  handle_input-Same input s t x = within (lookup other t.id_to_fsm)
    where
      within : (o : Option Fsm) → Same id s (input_in o other input t)
      within none = fault-Same s t x
      within (some f) = if_cases (Same id s) f.processing (λ _. x) (λ _. set_fsm-Same _ s t x)

  module _ (env : Env) where
    requested-Same :
        (o : Outcome) (node_id : ℕ) (f : Fsm) (c : NodeContext) (s t : Service)
        → Same id s t
        → Same id s (requested env o other node_id f c t)
    requested-Same (failure e) node_id f c s t x = answer-Same node_id _ e s t x
    requested-Same success node_id f c s t x =
        set_fsm-Same _ s _ (record { fsm = x.fsm; counts = x.counts; ends = x.ends })

    start-Same :
        (node_id : ℕ) (f : Fsm) (c : NodeContext) (s t : Service)
        → Same id s t
        → Same id s (start_cy_exec_cmd_rpc_call_for env other node_id f c t)
    unfolding start_cy_exec_cmd_rpc_call_for
    start-Same node_id f c s t x =
        if_cases (Same id s) c.has_client
          (λ _. requested-Same (env.request t node_id) node_id f c s t x)
          (λ _. release-Same node_id s t x)

    make-Same :
        (node_id : ℕ) (s t : Service)
        → Same id s t
        → Same id s (make_cy_rpc_client env other node_id t)
    unfolding make_cy_rpc_client
    make-Same node_id s t x = within (lookup other t.id_to_fsm)
      where
        made :
            (o : Outcome) (f : Fsm) (c : NodeContext)
            → Same id s (client_made env o other node_id f c t)
        made (failure e) f c = answer-Same node_id _ e s t x
        made success f c =
            let c' = record c { has_client = true } in
            let f' = record f { node_id_to_cnxt = insert node_id c' f.node_id_to_cnxt } in
            start-Same node_id f' c' s (set_fsm other f' t) (set_fsm-Same f' s t x)

        at : (o : Option NodeContext) (f : Fsm) → Same id s (make_for env o other node_id f t)
        at none f = x
        at (some c) f = made (env.make_client t node_id) f c

        within : (o : Option Fsm) → Same id s (make_in env o other node_id t)
        within none = fault-Same s t x
        within (some f) = at (lookup node_id f.node_id_to_cnxt) f

    make_each-Same :
        (ns : List ℕ) (s t : Service) → Same id s t → Same id s (make_cy_rpc_clients env other ns t)
    unfolding make_cy_rpc_clients
    make_each-Same [] s t x = x
    make_each-Same (n ∷ ns) s t x = make_each-Same ns s _ (make-Same n s t x)

    pub handle_completed-Same :
        (keep_alive : Bool) (s : Service) → Same id s (handle_completed env other keep_alive s)
    unfolding handle_completed
    handle_completed-Same keep_alive s = within (lookup other s.id_to_fsm) keep_alive
      where
        processed :
            (m : Map NodeContext) (t : Service) → Same id s t → Same id s (process env m other t)
        processed [] t x = complete-Same none s t x
        processed (c ∷ m) t x = make_each-Same (keys (c ∷ m)) s t x

        within : (o : Option Fsm) (k : Bool) → Same id s (completed_in env o other k s)
        within none k = fault-Same s s (Same-refl id s)
        within (some f) false = complete-Same (some (error canceled)) s s (Same-refl id s)
        within (some f) true =
            if_cases (Same id s) f.processing (λ _. Same-refl id s)
              (λ _. processed f.node_id_to_cnxt _ (set_fsm-Same _ s s (Same-refl id s)))
