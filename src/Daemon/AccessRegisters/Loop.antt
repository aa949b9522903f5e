-- ===== src/Daemon/AccessRegisters/Loop.antt =====
-- What the calls of a node leave behind (src/daemon/engine/svc/node/access_registers_service.cpp): it
-- waits at a register, or is done; and after the last node the channel is completed.
use ocvsmd.Common.{
  ℕ, zero, suc, ◌+◌, ◌≤◌, ◌<◌, ◌≡◌, ◌≢◌, refl, sym, ◌∙◌, ap, subst, Bool, true, false, none, some,
  List, [], ◌∷◌, ◌++◌, arith, if◌then◌else◌, length, take, drop, inl, inr, take-of_length-le,
  ==_refl,
}
use ocvsmd.Common.Map.{Map, lookup, insert, erase, lookup-insert, lookup-erase}
use ocvsmd.Common.Map.Keys.{Distinct, Others, NoRepeat, insert-Distinct, erase-Distinct, lookup-nil}
use ocvsmd.Error.{OptError}
use ocvsmd.Daemon.CyError.{
  CyError, Outcome, success, failure, cy_error_to_sdk_error, cy_failure_to_opt_error,
}
use ocvsmd.Daemon.AccessRegisters.{
  KeyValue, no_register, NodeContext, Response, Fsm, Env, set_contexts, complete, complete_if_empty,
  release_node_context, send_response, failed_item, index_mod, next_index, call_round, call_from,
  fault, start_cy_reg_access_rpc_call_for, client_made, make_for, make_cy_rpc_client,
  make_cy_rpc_clients,
}
use ocvsmd.Daemon.AccessRegisters.Track.{
  told, told_self, keys, keys-told, keys-eq_nil, names, length-names, drop-next, drop-nil, Track,
  Each, EachBut, EachBut-send, EachBut-insert, EachBut-erase, Each-back, Fresh, Fresh-insert,
  Fresh-erase,
}

pub record IsOpen (regs : List KeyValue) (f : Fsm) : Type 0 where
  pub processing : f.processing ≡ true
  pub same : f.registers ≡ regs
  pub alive : f.is_released ≡ false
  pub fine : f.faulted ≡ false
  pub moving : f.is_stuck ≡ false
  pub unended : f.completions ≡ []
  pub distinct : Distinct f.node_id_to_cnxt

pub record IsFinished (asked : ℕ → Bool) (regs : List KeyValue) (f : Fsm) : Type 0 where
  pub gone : f.is_released ≡ true
  pub fine : f.faulted ≡ false
  pub moving : f.is_stuck ≡ false
  pub ended : f.completions ≡ none ∷ []
  pub each : (n : ℕ) → Track regs (asked n) none (told n f.sent)

-- In the loop over nodes: those still to come are at their first register; or all are done.
pub data Goes (asked : ℕ → Bool) (regs : List KeyValue) (ns : List ℕ) (f : Fsm) : Type 0 where
  going :
      IsOpen regs f
      → Each asked regs f.node_id_to_cnxt f.sent
      → f.node_id_to_cnxt ≢ []
      → Fresh f.node_id_to_cnxt ns
      → Goes asked regs ns f
  over : IsFinished asked regs f → ns ≡ [] → Goes asked regs ns f

insert-ne-nil : (k : ℕ) (c : NodeContext) (m : Map NodeContext) → insert k c m ≢ []
insert-ne-nil k c m e =
    let found : lookup k (insert k c m) ≡ some c = lookup-insert k k c m ∙ rw (==_refl k) refl in
    cc (found, ap (lookup k) e, lookup-nil {V = NodeContext} k)

none-Fresh : (ns : List ℕ) → Fresh [] ns → ns ≡ []
none-Fresh [] h = refl
none-Fresh (n ∷ ns) h = let (c, found, first) = h.0 in cc (found, lookup-nil {V = NodeContext} n)

module _ (asked : ℕ → Bool) (regs : List KeyValue) (n : ℕ) (ns : List ℕ) (hit : asked n ≡ true)
    (others : Others n ns) (small : length regs < index_mod) where
  -- A node that is done is released.
  release-Goes :
      (f : Fsm)
      → IsOpen regs f
      → EachBut asked regs n f.node_id_to_cnxt f.sent
      → Track regs true none (told n f.sent)
      → Fresh f.node_id_to_cnxt ns
      → Goes asked regs ns (release_node_context n f)
  unfolding release_node_context complete
  release-Goes f o each own fresh =
      by_map (erase n f.node_id_to_cnxt) (erase-Distinct n f.node_id_to_cnxt o.distinct)
        (Each-back asked regs n (erase n f.node_id_to_cnxt) f.sent
          (subst (λ b. Track regs b (lookup n (erase n f.node_id_to_cnxt)) (told n f.sent))
            (sym hit)
            (subst (λ x. Track regs true x (told n f.sent)) {x = none}
              (sym (lookup-erase n n f.node_id_to_cnxt ∙ rw (==_refl n) refl)) own))
          (EachBut-erase asked regs n f.node_id_to_cnxt f.sent each))
        (Fresh-erase n f.node_id_to_cnxt ns others fresh)
    where
      by_map :
          (m : Map NodeContext)
          → Distinct m
          → Each asked regs m f.sent
          → Fresh m ns
          → Goes asked regs ns (complete_if_empty m (set_contexts m f))
      by_map [] d all later =
          over
            (record {
              gone = refl;
              fine = o.fine;
              moving = o.moving;
              ended = ap (λ cs. none ∷ cs) (o.unended);
              each =
                  λ k. subst (λ x. Track regs (asked k) x (told k f.sent)) (lookup-nil k) (all k);
            })
            (none-Fresh ns later)
      by_map (c ∷ m) d all later =
          going
            (record {
              processing = o.processing;
              same = o.same;
              alive = o.alive;
              fine = o.fine;
              moving = o.moving;
              unended = o.unended;
              distinct = d;
            })
            all (λ e. cc) later

  pub send_response-IsOpen :
      (f : Fsm) (item : KeyValue) (e : OptError)
      → IsOpen regs f
      → IsOpen regs (send_response n item e f)
  unfolding send_response
  send_response-IsOpen f item e o = record {
    processing = o.processing;
    same = o.same;
    alive = o.alive;
    fine = o.fine;
    moving = o.moving;
    unended = o.unended;
    distinct = o.distinct;
  }

  -- A node that was called waits.
  waits-Goes :
      (item : KeyValue) (c : NodeContext) (f : Fsm)
      → IsOpen regs f
      → EachBut asked regs n f.node_id_to_cnxt f.sent
      → keys (told n f.sent) ≡ take c.reg_index (names regs)
      → c.has_client ≡ true
      → c.reg_index < length regs
      → Fresh f.node_id_to_cnxt ns
      → Goes asked regs ns (record f {
        node_id_to_cnxt = insert n (record c { has_promise = true }) f.node_id_to_cnxt;
        calls = record { node_id = n; item = item } ∷ f.calls;
      })
  waits-Goes item c f o each own client below fresh =
      going
        (record {
          processing = o.processing;
          same = o.same;
          alive = o.alive;
          fine = o.fine;
          moving = o.moving;
          unended = o.unended;
          distinct = insert-Distinct n c' f.node_id_to_cnxt o.distinct;
        })
        (Each-back asked regs n (insert n c' f.node_id_to_cnxt) f.sent
          (subst (λ b. Track regs b (lookup n (insert n c' f.node_id_to_cnxt)) (told n f.sent))
            (sym hit)
            (subst (λ x. Track regs true x (told n f.sent)) {x = some c'}
              (sym (lookup-insert n n c' f.node_id_to_cnxt ∙ rw (==_refl n) refl))
              (below, own, λ _. client)))
          (EachBut-insert asked regs n c' f.node_id_to_cnxt f.sent each))
        (insert-ne-nil n c' f.node_id_to_cnxt) (Fresh-insert n c' f.node_id_to_cnxt ns others fresh)
    where
      c' : NodeContext
      c' = record c { has_promise = true }

  module _ (env : Env) where
    -- What a node is when the loop of its calls begins, or goes on.
    record IsReady (c : NodeContext) (f : Fsm) : Type 0 where
      still : IsOpen regs f
      each : EachBut asked regs n f.node_id_to_cnxt f.sent
      own : keys (told n f.sent) ≡ take c.reg_index (names regs)
      client : c.has_client ≡ true
      below : c.reg_index ≤ length regs
      fresh : Fresh f.node_id_to_cnxt ns

    call_round-Goes :
        (items : List KeyValue) (sent : Outcome) (again : NodeContext → Fsm → Fsm) (c : NodeContext)
        (f : Fsm)
        → ((d : NodeContext) (g : Fsm)
            → IsReady d g
            → d.reg_index ≡ c.reg_index + 1
            → Goes asked regs ns (again d g))
        → IsReady c f
        → drop c.reg_index regs ≡ items
        → Goes asked regs ns (call_round env items sent n again c f)
    unfolding send_response
    call_round-Goes [] sent again c f later r here =
        release-Goes f r.still r.each
          (inl (
            r.own
            ∙ take-of_length-le c.reg_index (names regs)
                (omega (arith, length-names regs, drop-nil c.reg_index regs here))))
          r.fresh
    call_round-Goes (item ∷ items) success again c f later r here =
        waits-Goes item c f r.still r.each r.own r.client
          (drop-next c.reg_index regs item items small here).0 r.fresh
    call_round-Goes (item ∷ items) (failure cy_failure) again c f later r here =
        let (below, more, next) = drop-next c.reg_index regs item items small here in
        later (next_index c)
          (send_response n (failed_item item) (cy_failure_to_opt_error cy_failure) f)
          (record {
            still =
                send_response-IsOpen f (failed_item item) (cy_failure_to_opt_error cy_failure)
                  r.still;
            each = EachBut-send asked regs n f.node_id_to_cnxt _ f.sent refl r.each;
            own = keys-told n _ f.sent refl ∙ ap (λ t. t ++ item.key ∷ []) r.own ∙ sym more;
            client = r.client;
            below = omega (arith, below, next);
            fresh = r.fresh;
          })
          next

    -- The loop is left: with fewer registers than the index counts, each round is a register.
    call_from-Goes :
        (rounds : ℕ) (c : NodeContext) (f : Fsm)
        → length regs < c.reg_index + rounds
        → IsReady c f
        → Goes asked regs ns (call_from env rounds n c f)
    unfolding call_from
    call_from-Goes zero c f enough r = absurd (omega (arith, r.below))
    call_from-Goes (suc rounds) c f enough r =
        subst
          (λ regs'. Goes asked regs ns (
            call_round env (drop c.reg_index regs') (env.request f n) n (call_from env rounds n) c
              f))
          (sym r.still.same)
          (call_round-Goes (drop c.reg_index regs) (env.request f n) (call_from env rounds n) c f
            (λ d g ready next. call_from-Goes rounds d g (omega (arith, next, enough)) ready) r
            refl)

    -- The next register of a node whose context was put back.
    start-Goes :
        (c : NodeContext) (f : Fsm)
        → IsReady c f
        → Goes asked regs ns (start_cy_reg_access_rpc_call_for env n c f)
    unfolding start_cy_reg_access_rpc_call_for
    start-Goes c f r =
        subst
          (λ b. Goes asked regs ns (
            if b
            then call_from env (suc (length f.registers) + env.more_rounds) n c f
            else release_node_context n f))
          (sym r.client)
          (call_from-Goes (suc (length f.registers) + env.more_rounds) c f
            (let same = ap length r.still.same in omega (arith, same)) r)

    -- A node is put back with a context of the same progress.
    pub put-Goes :
        (c : NodeContext) (f : Fsm)
        → IsOpen regs f
        → EachBut asked regs n f.node_id_to_cnxt f.sent
        → keys (told n f.sent) ≡ take c.reg_index (names regs)
        → c.has_client ≡ true
        → c.reg_index ≤ length regs
        → Fresh f.node_id_to_cnxt ns
        → Goes asked regs ns (
            start_cy_reg_access_rpc_call_for env n c
              (set_contexts (insert n c f.node_id_to_cnxt) f))
    put-Goes c f o each own client below fresh =
        start-Goes c (set_contexts (insert n c f.node_id_to_cnxt) f) (record {
          still = record {
            processing = o.processing;
            same = o.same;
            alive = o.alive;
            fine = o.fine;
            moving = o.moving;
            unended = o.unended;
            distinct = insert-Distinct n c f.node_id_to_cnxt o.distinct;
          };
          each = EachBut-insert asked regs n c f.node_id_to_cnxt f.sent each;
          own = own;
          client = client;
          below = below;
          fresh = Fresh-insert n c f.node_id_to_cnxt ns others fresh;
        })

    abbrev failed_response : CyError → Response
    failed_response cy_failure = record {
      node_id = n;
      item = no_register;
      opt_error = cy_failure_to_opt_error cy_failure;
    }

    made-Goes :
        (r : Outcome) (c : NodeContext) (f : Fsm)
        → IsOpen regs f
        → EachBut asked regs n f.node_id_to_cnxt f.sent
        → told n f.sent ≡ []
        → c.reg_index ≡ 0
        → Fresh f.node_id_to_cnxt ns
        → Goes asked regs ns (client_made env r n c f)
    unfolding send_response
    made-Goes (failure cy_failure) c f o each own first fresh =
        release-Goes (send_response n no_register (cy_failure_to_opt_error cy_failure) f)
          (send_response-IsOpen f no_register (cy_failure_to_opt_error cy_failure) o)
          (EachBut-send asked regs n f.node_id_to_cnxt _ f.sent refl each)
          (inr (record {
            response = failed_response cy_failure;
            error = cy_error_to_sdk_error cy_failure;
            only = told_self n _ f.sent refl ∙ ap (λ t. t ++ failed_response cy_failure ∷ []) own;
            unnamed = refl;
            failed = refl;
          }))
          fresh
    made-Goes success c f o each own first fresh =
        put-Goes (record c { has_client = true }) f o each
          (ap keys own ∙ ap (λ i. take i (names regs)) (sym first)) refl (omega (arith, first))
          fresh

module _ (asked : ℕ → Bool) (regs : List KeyValue) (env : Env)
    (small : length regs < index_mod) where
  make-Goes :
      (n : ℕ) (ns : List ℕ) (f : Fsm)
      → Others n ns
      → Goes asked regs (n ∷ ns) f
      → Goes asked regs ns (make_cy_rpc_client env n f)
  unfolding make_cy_rpc_client
  make-Goes n ns f others (over done e) = cc
  make-Goes n ns f others (going o each some_left fresh) =
      let (c, found, first) = fresh.0 in
      subst
        (λ b.
          Goes asked regs ns (if b then fault f else make_for env (lookup n f.node_id_to_cnxt) n f))
        (sym o.alive)
        (subst (λ x. Goes asked regs ns (make_for env x n f)) (sym found)
          (by_track (asked n) refl c first
            (subst (λ x. Track regs (asked n) x (told n f.sent)) found (each n))))
    where
      by_track :
          (b : Bool)
          → asked n ≡ b
          → (c : NodeContext) → c.reg_index ≡ 0
          → Track regs b (some c) (told n f.sent)
          → Goes asked regs ns (client_made env (env.make_client f n) n c f)
      by_track false e c first t = absurd t
      by_track true e c first t =
          made-Goes asked regs n ns e others small env (env.make_client f n) c f o (λ k _. each k)
            (keys-eq_nil (told n f.sent) (t.1 ∙ ap (λ i. take i (names regs)) first)) first fresh.1

  pub make_each-Goes :
      (ns : List ℕ) (f : Fsm)
      → NoRepeat ns
      → Goes asked regs ns f
      → Goes asked regs [] (make_cy_rpc_clients env ns f)
  unfolding make_cy_rpc_clients
  make_each-Goes [] f r g = g
  make_each-Goes (n ∷ ns) f r g =
      make_each-Goes ns (make_cy_rpc_client env n f) r.1 (make-Goes n ns f r.0 g)
