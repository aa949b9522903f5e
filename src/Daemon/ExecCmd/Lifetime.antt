-- ===== src/Daemon/ExecCmd/Lifetime.antt =====
-- Every operation of the command service works on state machines that are there
-- (src/daemon/engine/svc/node/exec_cmd_service.cpp).
use ocvsmd.Common.{
  ℕ, ◌+◌, ◌%◌, ◌≡◌, refl, sym, ◌∙◌, subst, Bool, true, false, Option, none, some, List, [], ◌∷◌,
  if_cases, ==_refl,
}
use ocvsmd.Common.Map.{Map, keys, lookup, insert, erase, lookup-insert}
use ocvsmd.Error.{OptError, error, canceled}
use ocvsmd.Ipc.ClientRouter.{u64_mod}
use ocvsmd.Daemon.ExecCmd.{
  ResponsePayload, Request, NodeContext, Fsm, Service, Env, Outcome, success, failure, NodeResult,
  answered, expired, init, set_fsm, set_contexts, complete, send_response, complete_if_empty,
  release_node_in, release_node_context, answer, handle_node_response, input_in, handle_input,
  serve, requested, start_cy_exec_cmd_rpc_call_for, client_made, make_for, make_in,
  make_cy_rpc_client, make_cy_rpc_clients, process, completed_in, handle_completed, no_payload,
}
use ocvsmd.Daemon.ExecCmd.Runs.{Step, serves, inputs, completes, responds, Reach, here, next}
use ocvsmd.Common.Map.Keys.{
  Distinct, Present, Others, NoRepeat, insert-Distinct, erase-Distinct, keys-NoRepeat, keys-Present,
  erase-Present, insert-Present, lookup-nil,
}
use ocvsmd.Daemon.ExecCmd.Sound.{add_nodes-Distinct, IsSound, set_fsm-IsSound, complete-IsSound}

-- The nodes that a loop has still to do have contexts, so the state machine is there; or there are
-- none.
data Ready (id : ℕ) (s : Service) : List ℕ → Type 0 where
  done : Ready id s []
  more :
      {ns : List ℕ} (f : Fsm)
      → lookup id s.id_to_fsm ≡ some f
      → Present f.node_id_to_cnxt ns
      → Ready id s ns

record Goes (id : ℕ) (ns : List ℕ) (s : Service) : Type 0 where
  sound : IsSound s
  ready : Ready id s ns

none-Present : (ns : List ℕ) → Present {V = NodeContext} [] ns → ns ≡ []
none-Present [] h = refl
none-Present (n ∷ ns) h = absurd (h.0 (lookup-nil n))

set-found : (id : ℕ) (f : Fsm) (s : Service) → lookup id (set_fsm id f s).id_to_fsm ≡ some f
set-found id f s = lookup-insert id id f s.id_to_fsm ∙ rw (==_refl id) refl

module _ (id n : ℕ) (ns : List ℕ) (others : Others n ns) where
  answer-Goes :
      (p : ResponsePayload) (o : OptError) (s : Service) (f : Fsm)
      → lookup id s.id_to_fsm ≡ some f
      → IsSound s
      → Present f.node_id_to_cnxt ns
      → Goes id ns (answer id n p o s)
  unfolding answer release_node_context send_response
  answer-Goes p o s f e h there =
      subst (λ x. Goes id ns (release_node_in x id n s')) (sym e)
        (dropped (erase n f.node_id_to_cnxt)
          (erase-Distinct n f.node_id_to_cnxt (h.distinct id f e))
          (erase-Present n f.node_id_to_cnxt ns others there))
    where
      s' : Service
      s' = send_response id n p o s

      h' : IsSound s'
      h' = record { fine = h.fine; distinct = h.distinct }

      dropped :
          (m : Map NodeContext)
          → Distinct m
          → Present m ns
          → Goes id ns (complete_if_empty m id (set_contexts id f m s'))
      dropped [] d there' = record {
        sound =
            complete-IsSound id none _
              (set_fsm-IsSound id (record f { node_id_to_cnxt = [] }) s' d h');
        ready =
            subst (Ready id (complete id none (set_contexts id f [] s')))
              (sym (none-Present ns there')) done;
      }
      dropped (c ∷ m) d there' = record {
        sound = set_fsm-IsSound id (record f { node_id_to_cnxt = c ∷ m }) s' d h';
        ready = more (record f { node_id_to_cnxt = c ∷ m }) (set-found id _ s') there';
      }

  module _ (env : Env) where
    requested-Goes :
        (q : Outcome) (s : Service) (f : Fsm) (c : NodeContext)
        → lookup id s.id_to_fsm ≡ some f
        → IsSound s
        → Present f.node_id_to_cnxt ns
        → Goes id ns (requested env q id n f c s)
    requested-Goes (failure o) s f c e h there = answer-Goes no_payload o s f e h there
    requested-Goes success s f c e h there =
        let m = insert n (record c { has_promise = true }) f.node_id_to_cnxt in
        let f' = record f { node_id_to_cnxt = m } in
        record {
          sound =
              set_fsm-IsSound id f' _ (insert-Distinct n _ f.node_id_to_cnxt (h.distinct id f e))
                (record { fine = h.fine; distinct = h.distinct });
          ready =
              more f' (set-found id f' s) (insert-Present n _ f.node_id_to_cnxt ns others there);
        }

    client_made-Goes :
        (q : Outcome) (s : Service) (f : Fsm) (c : NodeContext)
        → lookup id s.id_to_fsm ≡ some f
        → IsSound s
        → Present f.node_id_to_cnxt ns
        → Goes id ns (client_made env q id n f c s)
    unfolding start_cy_exec_cmd_rpc_call_for
    client_made-Goes (failure o) s f c e h there = answer-Goes no_payload o s f e h there
    client_made-Goes success s f c e h there =
        let c' = record c { has_client = true } in
        let f' = record f { node_id_to_cnxt = insert n c' f.node_id_to_cnxt } in
        requested-Goes (env.request (set_fsm id f' s) n) (set_fsm id f' s) f' c' (set-found id f' s)
          (set_fsm-IsSound id f' s (insert-Distinct n c' f.node_id_to_cnxt (h.distinct id f e)) h)
          (insert-Present n c' f.node_id_to_cnxt ns others there)

    make-Goes :
        (s : Service) (f : Fsm)
        → lookup id s.id_to_fsm ≡ some f
        → IsSound s
        → Present f.node_id_to_cnxt ns
        → Goes id ns (make_cy_rpc_client env id n s)
    unfolding make_cy_rpc_client
    make-Goes s f e h there =
        subst (λ x. Goes id ns (make_in env x id n s)) (sym e) (at (lookup n f.node_id_to_cnxt))
      where
        at : (o : Option NodeContext) → Goes id ns (make_for env o id n f s)
        at none = record { sound = h; ready = more f e there }
        at (some c) = client_made-Goes (env.make_client s n) s f c e h there

input-IsSound :
    (id : ℕ) (input : Request) (s : Service) (f : Fsm)
    → lookup id s.id_to_fsm ≡ some f
    → IsSound s
    → IsSound (handle_input id input s)
unfolding handle_input
input-IsSound id input s f e h =
    subst (λ x. IsSound (input_in x id input s)) (sym e)
      (if_cases IsSound f.processing (λ _. h)
        (λ _.
          set_fsm-IsSound id _ s
            (add_nodes-Distinct input.node_ids _ f.node_id_to_cnxt (h.distinct id f e)) h))

module _ (env : Env) (id : ℕ) where
  make_each-IsSound :
      (ns : List ℕ) (s : Service)
      → NoRepeat ns
      → Goes id ns s
      → IsSound (make_cy_rpc_clients env id ns s)
  unfolding make_cy_rpc_clients
  make_each-IsSound [] s r g = g.sound
  make_each-IsSound (n ∷ ns) s r g =
      let (f, e, there) = front g.ready in
      make_each-IsSound ns (make_cy_rpc_client env id n s) r.1
        (make-Goes id n ns r.0 env s f e g.sound there.1)
    where
      front :
          Ready id s (n ∷ ns)
          → (f : Fsm) × (lookup id s.id_to_fsm ≡ some f) × Present f.node_id_to_cnxt (n ∷ ns)
      front (more f e there) = (f, e, there)

  completed-IsSound :
      (keep_alive : Bool) (s : Service) (f : Fsm)
      → lookup id s.id_to_fsm ≡ some f
      → IsSound s
      → IsSound (handle_completed env id keep_alive s)
  unfolding handle_completed
  completed-IsSound keep_alive s f e h =
      subst (λ x. IsSound (completed_in env x id keep_alive s)) (sym e) (by_kind keep_alive)
    where
      busy : Fsm
      busy = record f { processing = true }

      ready : IsSound (set_fsm id busy s)
      ready = set_fsm-IsSound id busy s (h.distinct id f e) h

      by_nodes :
          (m : Map NodeContext)
          → f.node_id_to_cnxt ≡ m
          → IsSound (process env m id (set_fsm id busy s))
      by_nodes [] same = complete-IsSound id none (set_fsm id busy s) ready
      by_nodes (c ∷ m) same =
          make_each-IsSound (keys (c ∷ m)) (set_fsm id busy s)
            (keys-NoRepeat (c ∷ m) (subst Distinct same (h.distinct id f e)))
            (record {
              sound = ready;
              ready =
                  more busy (set-found id busy s)
                    (subst (λ x. Present x (keys (c ∷ m))) (sym same) (keys-Present (c ∷ m)));
            })

      by_kind : (k : Bool) → IsSound (completed_in env (some f) id k s)
      by_kind false = complete-IsSound id (some (error canceled)) s h
      by_kind true = if_cases IsSound f.processing (λ _. h) (λ _. by_nodes f.node_id_to_cnxt refl)

response-IsSound :
    (id n : ℕ) (res : NodeResult) (s : Service) (f : Fsm)
    → lookup id s.id_to_fsm ≡ some f
    → IsSound s
    → IsSound (handle_node_response id n res s)
unfolding handle_node_response
response-IsSound id n (answered p) s f e h = (answer-Goes id n [] tt p none s f e h tt).sound
response-IsSound id n (expired o) s f e h = (answer-Goes id n [] tt no_payload o s f e h tt).sound

serve-IsSound : (request : Request) (s : Service) → IsSound s → IsSound (serve request s)
unfolding serve Distinct
serve-IsSound request s h =
    let id = s.next_fsm_id in
    let new : Fsm = record { processing = false; node_id_to_cnxt = [] } in
    let s' = record s { next_fsm_id = (id + 1) % u64_mod } in
    input-IsSound id request (set_fsm id new s') new (set-found id new s')
      (set_fsm-IsSound id new s' tt (record { fine = h.fine; distinct = h.distinct }))

module _ (env : Env) where
  Step-IsSound : {s t : Service} → Step env s t → IsSound s → IsSound t
  Step-IsSound {s} (serves request room) h = serve-IsSound request s h
  Step-IsSound {s} (inputs id f input e) h = input-IsSound id input s f e h
  Step-IsSound {s} (completes id f k e) h = completed-IsSound env id k s f e h
  Step-IsSound {s} (responds id f n c res e w) h = response-IsSound id n res s f e h

  Reach-IsSound : {s t : Service} → Reach env s t → IsSound s → IsSound t
  Reach-IsSound here h = h
  Reach-IsSound (next path step) h = Step-IsSound step (Reach-IsSound path h)

  init-IsSound : IsSound init
  unfolding lookup
  init-IsSound = record { fine = refl; distinct = λ id f e. cc }

  -- In every state that the service gets to from its start, it has never worked on a state machine
  -- that was destroyed, and no node has two contexts in one state machine.
  pub never_faulted : (s : Service) → Reach env init s → IsSound s
  never_faulted s path = Reach-IsSound path init-IsSound
