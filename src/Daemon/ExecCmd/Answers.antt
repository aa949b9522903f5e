-- ===== src/Daemon/ExecCmd/Answers.antt =====
-- Every node that is asked gets one answer, and the channel one completion
-- (src/daemon/engine/svc/node/exec_cmd_service.cpp).
use ocvsmd.Common.{
  ℕ, ◌+◌, ◌≡◌, ◌≢◌, refl, sym, ap, ◌∙◌, subst, Bool, true, false, Option, none, some, List, [], ◌∷◌,
  arith, ◌==◌, inl, inr, Bool-cases, has_value, ==_refl,
}
use ocvsmd.Common.Map.{Map, lookup, insert, erase, lookup-insert, lookup-erase}
use ocvsmd.Error.{OptError}
use ocvsmd.Daemon.ExecCmd.{
  ResponsePayload, NodeContext, Fsm, Service, Env, Outcome, success, failure, NodeResult, answered,
  expired, no_payload, set_fsm, set_contexts, fault, release_fsm_by, complete, send_response,
  complete_if_empty, release_node_in, release_node_context, answer, handle_node_response, requested,
  start_cy_exec_cmd_rpc_call_for, client_made, make_for, make_in, make_cy_rpc_client,
  make_cy_rpc_clients,
}
use ocvsmd.Daemon.ExecCmd.Frame.{answers, completions_of, Same}

-- One for a node that has a context, else zero.
abbrev pub counted : Bool → ℕ
counted true = 1
counted false = 0

unfoldable pub pending : Map NodeContext → ℕ → ℕ
pending m node_id = counted (has_value (lookup node_id m))

-- The state machine works on a set of nodes: each of them waits, or has had its one answer.
pub record Running (id : ℕ) (nodes : Map NodeContext) (s : Service) (f : Fsm) : Type 0 where
  pub found : lookup id s.id_to_fsm ≡ some f
  pub processing : f.processing ≡ true
  pub filled : f.node_id_to_cnxt ≢ []
  pub counts :
      (node_id : ℕ)
      → answers id node_id s.sent + pending f.node_id_to_cnxt node_id ≡ pending nodes node_id
  pub open_channel : completions_of id s.completions ≡ []

-- It is at work; or all its nodes were answered once, and then the channel was completed, once and
-- without an error.
pub data Working (id : ℕ) (nodes : Map NodeContext) (s : Service) : Type 0 where
  running : (f : Fsm) → Running id nodes s f → Working id nodes s
  finished :
      lookup id s.id_to_fsm ≡ none
      → ((node_id : ℕ) → answers id node_id s.sent ≡ pending nodes node_id)
      → completions_of id s.completions ≡ none ∷ []
      → Working id nodes s

pub Same-Working :
    (id : ℕ) (nodes : Map NodeContext) (s t : Service)
    → Same id s t
    → Working id nodes s
    → Working id nodes t
Same-Working id nodes s t x (running f r) = running f (record {
  found = x.fsm ∙ r.found;
  processing = r.processing;
  filled = r.filled;
  counts = λ n. ap (λ k. k + pending f.node_id_to_cnxt n) (x.counts n) ∙ r.counts n;
  open_channel = x.ends ∙ r.open_channel;
})
Same-Working id nodes s t x (finished gone counts ends) =
    finished (x.fsm ∙ gone) (λ n. x.counts n ∙ counts n) (x.ends ∙ ends)

insert-ne-nil : (k : ℕ) (c : NodeContext) (m : Map NodeContext) → insert k c m ≢ []
unfolding insert
insert-ne-nil k c [] = λ e. cc
insert-ne-nil k c ((j, d) ∷ m) = λ e. ground (arith, e)

pending-insert :
    (k : ℕ) (c d : NodeContext) (m : Map NodeContext)
    → lookup k m ≡ some d
    → (n : ℕ) → pending (insert k c m) n ≡ pending m n
unfolding pending
pending-insert k c d m found n = elim (Bool-cases (k == n)) [
  | inl hit ↦
      let e : k ≡ n = ground (arith, hit) in
      subst (λ j. counted (has_value (lookup j (insert k c m))) ≡ counted (has_value (lookup j m)))
        e (rw (lookup-insert k k c m, ==_refl k, found) refl)
  | inr miss ↦ rw (lookup-insert k n c m, miss) refl
]

module _ (id : ℕ) (nodes : Map NodeContext) where
  -- Contexts of nodes may change while they wait.
  set-Running :
      (s : Service) (f : Fsm) (n : ℕ) (c d : NodeContext)
      → lookup n f.node_id_to_cnxt ≡ some d
      → Running id nodes s f
      → Running id nodes
          (set_contexts id f (insert n c f.node_id_to_cnxt) s)
          (record f { node_id_to_cnxt = insert n c f.node_id_to_cnxt })
  set-Running s f n c d there r = record {
    found = lookup-insert id id _ s.id_to_fsm ∙ rw (==_refl id) refl;
    processing = r.processing;
    filled = insert-ne-nil n c f.node_id_to_cnxt;
    counts = λ k.
        ap (λ p. answers id k s.sent + p) (pending-insert n c d f.node_id_to_cnxt there k)
        ∙ r.counts k;
    open_channel = r.open_channel;
  }

  -- The counts once a waiting node has its answer.
  answer-counts :
      (s : Service) (f : Fsm) (n : ℕ) (d : NodeContext) (p : ResponsePayload) (o : OptError)
      → lookup n f.node_id_to_cnxt ≡ some d
      → Running id nodes s f
      → (k : ℕ)
      → answers id k (send_response id n p o s).sent + pending (erase n f.node_id_to_cnxt) k
        ≡ pending nodes k
  unfolding pending answers send_response
  answer-counts s f n d p o there r k = elim (Bool-cases (n == k)) [
    | inl hit ↦
        subst
          (λ j.
            answers id j (send_response id n p o s).sent + pending (erase n f.node_id_to_cnxt) j
            ≡ pending nodes j)
          (ground (arith, hit)) own
    | inr miss ↦
        let keep : pending (erase n f.node_id_to_cnxt) k ≡ pending f.node_id_to_cnxt k =
          rw (lookup-erase n k f.node_id_to_cnxt, miss) refl in
        rw (==_refl id, miss) (ap (λ q. answers id k s.sent + q) keep ∙ r.counts k)
  ]
    where
      own :
          answers id n (send_response id n p o s).sent + pending (erase n f.node_id_to_cnxt) n
          ≡ pending nodes n
      own =
          let none_left : pending (erase n f.node_id_to_cnxt) n ≡ 0 =
            rw (lookup-erase n n f.node_id_to_cnxt, ==_refl n) refl in
          let waits : pending f.node_id_to_cnxt n ≡ 1 = rw there refl in
          rw (==_refl id, ==_refl n) (omega (arith, none_left, waits, r.counts n))

  pub complete-gone : (o : OptError) (s : Service) → lookup id (complete id o s).id_to_fsm ≡ none
  unfolding complete release_fsm_by
  complete-gone o s = lookup-erase id id s.id_to_fsm ∙ rw (==_refl id) refl

  pub complete-ends :
      (o : OptError) (s : Service)
      → completions_of id s.completions ≡ []
      → completions_of id (complete id o s).completions ≡ o ∷ []
  unfolding complete release_fsm_by completions_of
  complete-ends o s h = rw (==_refl id) (ap (λ os. o ∷ os) h)

  pub pending-nil : (k : ℕ) → pending [] k ≡ 0
  unfolding pending lookup
  pending-nil k = refl

  answer-Working :
      (s : Service) (f : Fsm) (n : ℕ) (d : NodeContext) (p : ResponsePayload) (o : OptError)
      → lookup n f.node_id_to_cnxt ≡ some d
      → Running id nodes s f
      → Working id nodes (answer id n p o s)
  unfolding answer release_node_context send_response complete release_fsm_by
  answer-Working s f n d p o there r = ap_back (dropped (erase n f.node_id_to_cnxt) refl)
    where
      s' : Service
      s' = send_response id n p o s

      dropped :
          (m : Map NodeContext)
          → erase n f.node_id_to_cnxt ≡ m
          → Working id nodes (complete_if_empty m id (set_contexts id f m s'))
      dropped [] e =
          finished (complete-gone none (set_contexts id f [] s'))
            (λ k.
              omega (
                arith,
                answer-counts s f n d p o there r k,
                ap (λ m. pending m k) e,
                pending-nil k,
              ))
            (complete-ends none (set_contexts id f [] s') r.open_channel)
      dropped (c ∷ m) e =
          running (record f { node_id_to_cnxt = c ∷ m })
            (record {
              found = lookup-insert id id _ s.id_to_fsm ∙ rw (==_refl id) refl;
              processing = r.processing;
              filled = λ x. cc;
              counts = λ k.
                  ap (λ q. answers id k s'.sent + pending q k) (sym e)
                  ∙ answer-counts s f n d p o there r k;
              open_channel = r.open_channel;
            })

      ap_back :
          Working id nodes (release_node_in (some f) id n s')
          → Working id nodes (release_node_in (lookup id s.id_to_fsm) id n s')
      ap_back x = subst (λ q. Working id nodes (release_node_in q id n s')) (sym r.found) x

  -- An answer or a time-out of a node that waits.
  pub response-Working :
      (s : Service) (f : Fsm) (n : ℕ) (d : NodeContext) (res : NodeResult)
      → lookup n f.node_id_to_cnxt ≡ some d
      → Running id nodes s f
      → Working id nodes (handle_node_response id n res s)
  unfolding handle_node_response
  response-Working s f n d (answered p) there r = answer-Working s f n d p none there r
  response-Working s f n d (expired o) there r = answer-Working s f n d no_payload o there r

  pub fault-Working : (s : Service) → Working id nodes s → Working id nodes (fault s)
  fault-Working s x =
      Same-Working id nodes s (fault s) (record { fsm = refl; counts = λ n. refl; ends = refl }) x

module _ (env : Env) (id : ℕ) (nodes : Map NodeContext) where
  requested-Working :
      (q : Outcome) (s : Service) (f : Fsm) (n : ℕ) (c : NodeContext)
      → lookup n f.node_id_to_cnxt ≡ some c
      → Running id nodes s f
      → Working id nodes (requested env q id n f c s)
  requested-Working (failure o) s f n c there r =
      answer-Working id nodes s f n c no_payload o there r
  requested-Working success s f n c there r = running _ (
      set-Running id nodes _ f n (record c { has_promise = true }) c there
        (record {
          found = r.found;
          processing = r.processing;
          filled = r.filled;
          counts = r.counts;
          open_channel = r.open_channel;
        }))

  client_made-Working :
      (q : Outcome) (s : Service) (f : Fsm) (n : ℕ) (c : NodeContext)
      → lookup n f.node_id_to_cnxt ≡ some c
      → Running id nodes s f
      → Working id nodes (client_made env q id n f c s)
  unfolding start_cy_exec_cmd_rpc_call_for
  client_made-Working (failure o) s f n c there r =
      answer-Working id nodes s f n c no_payload o there r
  client_made-Working success s f n c there r =
      let c' = record c { has_client = true } in
      let f' = record f { node_id_to_cnxt = insert n c' f.node_id_to_cnxt } in
      requested-Working (env.request (set_fsm id f' s) n) (set_fsm id f' s) f' n c'
        (lookup-insert n n c' f.node_id_to_cnxt ∙ rw (==_refl n) refl)
        (set-Running id nodes s f n c' c there r)

  make-Working :
      (s : Service) (n : ℕ) → Working id nodes s → Working id nodes (make_cy_rpc_client env id n s)
  unfolding make_cy_rpc_client
  make-Working s n x = within (lookup id s.id_to_fsm) refl x
    where
      at :
          (f : Fsm) (o : Option NodeContext)
          → lookup n f.node_id_to_cnxt ≡ o
          → Running id nodes s f
          → Working id nodes (make_for env o id n f s)
      at f none e r = running f r
      at f (some c) e r = client_made-Working (env.make_client s n) s f n c e r

      within :
          (o : Option Fsm)
          → lookup id s.id_to_fsm ≡ o
          → Working id nodes s
          → Working id nodes (make_in env o id n s)
      within none e y = fault-Working id nodes s y
      within (some f) e (running g r) =
          at f (lookup n f.node_id_to_cnxt) refl
            (subst (Running id nodes s) (ground (arith, e, r.found)) r)
      within (some f) e (finished gone c d) = absurd (ground (arith, e, gone))

  pub make_each-Working :
      (ns : List ℕ) (s : Service)
      → Working id nodes s
      → Working id nodes (make_cy_rpc_clients env id ns s)
  unfolding make_cy_rpc_clients
  make_each-Working [] s x = x
  make_each-Working (n ∷ ns) s x = make_each-Working ns _ (make-Working s n x)
