-- ===== src/Daemon/ExecCmd/Runs.antt =====
-- The service as a state machine, and what one channel sees of any run
-- (src/daemon/engine/svc/node/exec_cmd_service.cpp).
use ocvsmd.Common.{
  ℕ, ◌+◌, ◌<◌, ◌≤◌, ◌%◌, ◌≡◌, refl, sym, ap, ◌∙◌, subst, Bool, true, false, none, some, [], ◌∷◌,
  arith, ◌==◌, inl, inr, Bool-cases, ==_refl,
}
use ocvsmd.Common.Map.{Map, keys, lookup, lookup-insert}
use ocvsmd.Error.{error, canceled}
use ocvsmd.Ipc.ClientRouter.{u64_mod}
use ocvsmd.Daemon.ExecCmd.{
  Request, NodeContext, Fsm, Service, Env, NodeResult, set_fsm, complete, release_fsm_by,
  handle_node_response, input_in, handle_input, serve, process, completed_in, handle_completed,
}
use ocvsmd.Daemon.ExecCmd.Frame.{
  answers, completions_of, Same, set_fsm-Same, handle_node_response-Same, handle_input-Same,
  handle_completed-Same, Same-refl,
}
use ocvsmd.Daemon.ExecCmd.Counter.{
  IsKept, handle_node_response-IsKept, handle_input-IsKept, handle_completed-IsKept,
}
use ocvsmd.Daemon.ExecCmd.Answers.{
  pending, Running, Working, running, finished, Same-Working, response-Working, make_each-Working,
  complete-gone, complete-ends, pending-nil,
}

-- What happens: a new channel, an input or a completion on a channel that is there, a callback of a
-- node that is waited for. No more channels come than a counter of 64 bits has.
pub data Step (env : Env) (s : Service) : Service → Type 0 where
  serves : (request : Request) → s.next_fsm_id + 1 < u64_mod → Step env s (serve request s)
  inputs :
      (id : ℕ) (f : Fsm) (input : Request)
      → lookup id s.id_to_fsm ≡ some f
      → Step env s (handle_input id input s)
  completes :
      (id : ℕ) (f : Fsm) (keep_alive : Bool)
      → lookup id s.id_to_fsm ≡ some f
      → Step env s (handle_completed env id keep_alive s)
  responds :
      (id : ℕ) (f : Fsm) (n : ℕ) (c : NodeContext) (res : NodeResult)
      → lookup id s.id_to_fsm ≡ some f
      → lookup n f.node_id_to_cnxt ≡ some c
      → Step env s (handle_node_response id n res s)

pub data Reach (env : Env) (s : Service) : Service → Type 0 where
  here : Reach env s s
  next : {t u : Service} → Reach env s t → Step env t u → Reach env s u

-- At work or finished; or the channel was completed once, as canceled, and no node was answered twice.
pub data Progress (id : ℕ) (nodes : Map NodeContext) (s : Service) : Type 0 where
  works : Working id nodes s → Progress id nodes s
  stopped :
      lookup id s.id_to_fsm ≡ none
      → ((n : ℕ) → answers id n s.sent ≤ pending nodes n)
      → completions_of id s.completions ≡ some (error canceled) ∷ []
      → Progress id nodes s

module _ (env : Env) (id : ℕ) (nodes : Map NodeContext) where
  Same-Progress : (s t : Service) → Same id s t → Progress id nodes s → Progress id nodes t
  Same-Progress s t x (works w) = works (Same-Working id nodes s t x w)
  Same-Progress s t x (stopped gone counts ends) =
      stopped (x.fsm ∙ gone) (λ n. subst (λ k. k ≤ pending nodes n) (sym (x.counts n)) (counts n))
        (x.ends ∙ ends)

  -- The running state machine behind a progress, where its channel is there.
  alive :
      (s : Service) (f : Fsm)
      → lookup id s.id_to_fsm ≡ some f
      → Progress id nodes s
      → Running id nodes s f
  alive s f e (works (running g r)) = subst (Running id nodes s) (ground (arith, e, r.found)) r
  alive s f e (works (finished gone c d)) = absurd (ground (arith, e, gone))
  alive s f e (stopped gone c d) = absurd (ground (arith, e, gone))

  input-Progress :
      (s : Service) (f : Fsm) (input : Request)
      → Running id nodes s f
      → Progress id nodes (handle_input id input s)
  unfolding handle_input
  input-Progress s f input r =
      subst (λ o. Progress id nodes (input_in o id input s)) (sym r.found)
        (rw (r.processing) (works (running f r)))

  canceled-Progress :
      (s : Service) (f : Fsm)
      → Running id nodes s f
      → Progress id nodes (complete id (some (error canceled)) s)
  unfolding complete release_fsm_by
  canceled-Progress s f r =
      stopped (complete-gone id nodes (some (error canceled)) s) (λ n. omega (arith, r.counts n))
        (complete-ends id nodes (some (error canceled)) s r.open_channel)

  completed-Progress :
      (s : Service) (f : Fsm) (keep_alive : Bool)
      → Running id nodes s f
      → Progress id nodes (handle_completed env id keep_alive s)
  unfolding handle_completed
  completed-Progress s f keep_alive r =
      subst (λ o. Progress id nodes (completed_in env o id keep_alive s)) (sym r.found)
        (by_kind keep_alive)
    where
      by_kind : (k : Bool) → Progress id nodes (completed_in env (some f) id k s)
      by_kind true = rw (r.processing) (works (running f r))
      by_kind false = canceled-Progress s f r

  record Known (s : Service) : Type 0 where
    below : id < s.next_fsm_id
    progress : Progress id nodes s

  kept : (s t : Service) → IsKept s t → Known s → Progress id nodes t → Known t
  kept s t e k p = record { below = omega (arith, e, k.below); progress = p }

  Step-Known : {s t : Service} → Step env s t → Known s → Known t
  unfolding serve
  Step-Known {s} (serves request room) k =
      let fresh : (s.next_fsm_id == id) ≡ false = ground (arith, k.below) in
      let s' = record s { next_fsm_id = (s.next_fsm_id + 1) % u64_mod } in
      record {
        below = omega (
          arith,
          k.below,
          room,
          handle_input-IsKept s.next_fsm_id request
              (set_fsm s.next_fsm_id (record { processing = false; node_id_to_cnxt = [] }) s'),
        );
        progress =
            Same-Progress s _
              (handle_input-Same id s.next_fsm_id fresh request s _ (
                set_fsm-Same id s.next_fsm_id fresh
                  (record { processing = false; node_id_to_cnxt = [] }) s s'
                  (record { fsm = refl; counts = λ n. refl; ends = refl })))
              k.progress;
      }
  Step-Known {s} (inputs other f input e) k =
      kept s _ (handle_input-IsKept other input s) k (elim (Bool-cases (other == id)) [
        | inr ne ↦
            Same-Progress s _ (handle_input-Same id other ne input s s (Same-refl id s)) k.progress
        | inl hit ↦
            let same : other ≡ id = ground (arith, hit) in
            subst (λ i. Progress id nodes (handle_input i input s)) (sym same)
              (input-Progress s f input
                (alive s f (subst (λ i. lookup i s.id_to_fsm ≡ some f) same e) k.progress))
      ])
  Step-Known {s} (completes other f keep_alive e) k =
      kept s _ (handle_completed-IsKept other env keep_alive s) k (elim (Bool-cases (other == id)) [
        | inr ne ↦ Same-Progress s _ (handle_completed-Same id other ne env keep_alive s) k.progress
        | inl hit ↦
            let same : other ≡ id = ground (arith, hit) in
            subst (λ i. Progress id nodes (handle_completed env i keep_alive s)) (sym same)
              (completed-Progress s f keep_alive
                (alive s f (subst (λ i. lookup i s.id_to_fsm ≡ some f) same e) k.progress))
      ])
  Step-Known {s} (responds other f n c res e waits) k =
      kept s _ (handle_node_response-IsKept other n res s) k (elim (Bool-cases (other == id)) [
        | inr ne ↦ Same-Progress s _ (handle_node_response-Same id other ne n res s) k.progress
        | inl hit ↦
            let same : other ≡ id = ground (arith, hit) in
            subst (λ i. Progress id nodes (handle_node_response i n res s)) (sym same)
              (works (
                response-Working id nodes s f n c res waits
                  (alive s f (subst (λ i. lookup i s.id_to_fsm ≡ some f) same e) k.progress)))
      ])

  Reach-Known : {s t : Service} → Reach env s t → Known s → Known t
  Reach-Known here k = k
  Reach-Known (next path step) k = Step-Known step (Reach-Known path k)

module _ (env : Env) (id : ℕ) (s : Service) (f : Fsm) (e : lookup id s.id_to_fsm ≡ some f)
    (idle : f.processing ≡ false) (unanswered : (n : ℕ) → answers id n s.sent ≡ 0)
    (unended : completions_of id s.completions ≡ []) where
  started : Working id f.node_id_to_cnxt (handle_completed env id true s)
  unfolding handle_completed complete release_fsm_by
  started =
      subst (λ o. Working id f.node_id_to_cnxt (completed_in env o id true s)) (sym e)
        (rw idle (by_nodes f.node_id_to_cnxt refl))
    where
      busy : Fsm
      busy = record f { processing = true }

      by_nodes :
          (m : Map NodeContext)
          → f.node_id_to_cnxt ≡ m
          → Working id f.node_id_to_cnxt (process env m id (set_fsm id busy s))
      by_nodes [] same =
          finished (complete-gone id [] none (set_fsm id busy s))
            (λ n. unanswered n ∙ sym (ap (λ m. pending m n) same ∙ pending-nil id [] n))
            (complete-ends id [] none (set_fsm id busy s) unended)
      by_nodes (c ∷ m) same =
          make_each-Working env id f.node_id_to_cnxt (keys (c ∷ m)) (set_fsm id busy s) (
            running busy (record {
              found = lookup-insert id id busy s.id_to_fsm ∙ rw (==_refl id) refl;
              processing = refl;
              filled = λ x. ground (arith, same, x);
              counts = λ n. omega (arith, unanswered n);
              open_channel = unended;
            }))

  -- When the channel of a state machine that has not begun, and of which nothing was told yet, is
  -- completed by the client for keeping alive, then in every later state, whatever happens on this
  -- and on other channels, each node of the working set either waits or was answered once and none
  -- is both; or the channel was completed once without an error after one answer for each node; or
  -- it was completed once as canceled with no node answered twice.
  pub answered_once :
      (t : Service)
      → id < s.next_fsm_id
      → Reach env (handle_completed env id true s) t
      → Progress id f.node_id_to_cnxt t
  answered_once t below path =
      (Reach-Known env id f.node_id_to_cnxt path (record {
        below = omega (arith, handle_completed-IsKept id env true s, below);
        progress = works started;
      })).progress
