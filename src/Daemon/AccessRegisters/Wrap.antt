-- ===== src/Daemon/AccessRegisters/Wrap.antt =====
-- Where the index of a register wraps (src/daemon/engine/svc/node/access_registers_service.cpp): with 2 ^ 16
-- registers or more the index never gets to their end.
use ocvsmd.Common.{
  ℕ, zero, suc, ◌+◌, ◌%◌, ◌<◌, ◌≤◌, ◌≡◌, refl, sym, ◌∙◌, subst, true, false, some, List, [], ◌∷◌,
  arith, if◌then◌else◌, length, drop, ==_refl,
}
use ocvsmd.Common.Map.{lookup, insert, lookup-insert}
use ocvsmd.Error.{OptError}
use ocvsmd.Daemon.CyError.{CyError, Outcome, success, failure, cy_failure_to_opt_error}
use ocvsmd.Daemon.AccessRegisters.{
  KeyValue, NodeContext, Fsm, Env, NodeResult, set_contexts, fault, release_node_context,
  send_response, failed_item, index_mod, next_index, call_round, call_from,
  start_cy_reg_access_rpc_call_for, value_of, error_of, respond_at, respond_in,
  handle_node_response,
}
use ocvsmd.Daemon.AccessRegisters.Track.{drop-nil}

-- A node that is still at work, on a channel that is there.
pub record IsAtWork (n : ℕ) (regs : List KeyValue) (f : Fsm) : Type 0 where
  pub same : f.registers ≡ regs
  pub alive : f.is_released ≡ false
  pub unended : f.completions ≡ []
  pub cnxt : NodeContext
  pub found : lookup n f.node_id_to_cnxt ≡ some cnxt
  pub client : cnxt.has_client ≡ true
  pub index : cnxt.reg_index < index_mod

-- A node's answers, one after the other.
unfoldable pub hear_answers : Env → ℕ → List NodeResult → Fsm → Fsm
unfolding handle_node_response
hear_answers env n [] f = f
hear_answers env n (result ∷ results) f =
    hear_answers env n results (handle_node_response env n result f)

index_below : (i : ℕ) → (i + 1) % index_mod < index_mod
index_below i = omega arith

module _ (env : Env) (n : ℕ) (regs : List KeyValue) (wide : index_mod ≤ length regs) where
  past_end : (i : ℕ) → i < index_mod → drop i regs ≡ [] → ⊥
  past_end i below e = omega (arith, drop-nil i regs e)

  send_response-IsAtWork :
      (item : KeyValue) (e : OptError) (f : Fsm)
      → IsAtWork n regs f
      → IsAtWork n regs (send_response n item e f)
  unfolding send_response
  send_response-IsAtWork item e f w = record {
    same = w.same;
    alive = w.alive;
    unended = w.unended;
    cnxt = w.cnxt;
    found = w.found;
    client = w.client;
    index = w.index;
  }

  put-IsAtWork :
      (c : NodeContext) (f : Fsm)
      → c.has_client ≡ true
      → c.reg_index < index_mod
      → IsAtWork n regs f
      → IsAtWork n regs (set_contexts (insert n c f.node_id_to_cnxt) f)
  put-IsAtWork c f client index w = record {
    same = w.same;
    alive = w.alive;
    unended = w.unended;
    cnxt = c;
    found = lookup-insert n n c f.node_id_to_cnxt ∙ rw (==_refl n) refl;
    client = client;
    index = index;
  }

  call_round-IsAtWork :
      (items : List KeyValue) (sent : Outcome) (again : NodeContext → Fsm → Fsm) (c : NodeContext)
      (f : Fsm)
      → ((g : Fsm) → IsAtWork n regs g → IsAtWork n regs (again (next_index c) g))
      → drop c.reg_index regs ≡ items
      → c.has_client ≡ true
      → c.reg_index < index_mod
      → IsAtWork n regs f
      → IsAtWork n regs (call_round env items sent n again c f)
  call_round-IsAtWork [] sent again c f later here client index w =
      absurd (past_end c.reg_index index here)
  call_round-IsAtWork (item ∷ items) success again c f later here client index w = record {
    same = w.same;
    alive = w.alive;
    unended = w.unended;
    cnxt = record c { has_promise = true };
    found = lookup-insert n n _ f.node_id_to_cnxt ∙ rw (==_refl n) refl;
    client = client;
    index = index;
  }
  call_round-IsAtWork (item ∷ items) (failure cy_failure) again c f later here client index w =
      later _ (send_response-IsAtWork (failed_item item) (cy_failure_to_opt_error cy_failure) f w)

  call_from-IsAtWork :
      (rounds : ℕ) (c : NodeContext) (f : Fsm)
      → c.has_client ≡ true
      → c.reg_index < index_mod
      → IsAtWork n regs f
      → IsAtWork n regs (call_from env rounds n c f)
  unfolding call_from
  call_from-IsAtWork zero c f client index w = record {
    same = w.same;
    alive = w.alive;
    unended = w.unended;
    cnxt = w.cnxt;
    found = w.found;
    client = w.client;
    index = w.index;
  }
  call_from-IsAtWork (suc rounds) c f client index w =
      subst
        (λ regs'. IsAtWork n regs (
          call_round env (drop c.reg_index regs') (env.request f n) n (call_from env rounds n) c f))
        (sym w.same)
        (call_round-IsAtWork (drop c.reg_index regs) (env.request f n) (call_from env rounds n) c f
          (λ g. call_from-IsAtWork rounds (next_index c) g client (index_below c.reg_index)) refl
          client index w)

  start-IsAtWork :
      (c : NodeContext) (f : Fsm)
      → c.has_client ≡ true
      → c.reg_index < index_mod
      → IsAtWork n regs f
      → IsAtWork n regs (start_cy_reg_access_rpc_call_for env n c f)
  unfolding start_cy_reg_access_rpc_call_for
  start-IsAtWork c f client index w =
      subst
        (λ b. IsAtWork n regs (
          if b
          then call_from env (suc (length f.registers) + env.more_rounds) n c f
          else release_node_context n f))
        (sym client)
        (call_from-IsAtWork (suc (length f.registers) + env.more_rounds) c f client index w)

  respond_at-IsAtWork :
      (items : List KeyValue) (result : NodeResult) (c : NodeContext) (f : Fsm)
      → drop c.reg_index regs ≡ items
      → c.has_client ≡ true
      → c.reg_index < index_mod
      → IsAtWork n regs f
      → IsAtWork n regs (respond_at env items n c result f)
  unfolding send_response
  respond_at-IsAtWork [] result c f here client index w = absurd (past_end c.reg_index index here)
  respond_at-IsAtWork (item ∷ items) result c f here client index w =
      start-IsAtWork (next_index c) _ client (index_below c.reg_index) (
        put-IsAtWork (next_index c) _ client (index_below c.reg_index) (
          send_response-IsAtWork (record item { value = value_of env result }) (error_of env result)
            f w))

  answer-IsAtWork :
      (result : NodeResult) (f : Fsm)
      → IsAtWork n regs f
      → IsAtWork n regs (handle_node_response env n result f)
  unfolding handle_node_response
  answer-IsAtWork result f w =
      subst
        (λ b.
          IsAtWork n regs
            (if b then fault f else respond_in env (lookup n f.node_id_to_cnxt) n result f))
        (sym w.alive)
        (subst (λ x. IsAtWork n regs (respond_in env x n result f)) (sym w.found)
          (subst
            (λ regs'.
              IsAtWork n regs (respond_at env (drop w.cnxt.reg_index regs') n w.cnxt result f))
            (sym w.same)
            (respond_at-IsAtWork (drop w.cnxt.reg_index regs) result w.cnxt f refl w.client w.index
              w)))

  -- With 2 ^ 16 registers or more, a node that is at work stays so for ever: whatever it answers, and
  -- however often, and whichever requests can be sent, it is not released, and the channel is not
  -- completed.
  pub hear_answers-IsAtWork :
      (results : List NodeResult) (f : Fsm)
      → IsAtWork n regs f
      → IsAtWork n regs (hear_answers env n results f)
  unfolding hear_answers
  hear_answers-IsAtWork [] f w = w
  hear_answers-IsAtWork (result ∷ results) f w =
      hear_answers-IsAtWork results (handle_node_response env n result f)
        (answer-IsAtWork result f w)

  module _ (cy_failure : CyError) (refuses : (f : Fsm) → env.request f n ≡ failure cy_failure) where
    -- And where no request can be sent, the loop of calls is not left, however long it is followed.
    pub call_from-stuck :
        (rounds : ℕ) (c : NodeContext) (f : Fsm)
        → c.reg_index < index_mod
        → f.registers ≡ regs
        → (call_from env rounds n c f).is_stuck ≡ true
    unfolding call_from send_response
    call_from-stuck zero c f index same = refl
    call_from-stuck (suc rounds) c f index same =
        subst
          (λ o.
            (call_round env (drop c.reg_index f.registers) o n (call_from env rounds n) c
              f).is_stuck
            ≡ true)
          (sym (refuses f))
          (subst
            (λ regs'.
              (call_round env (drop c.reg_index regs') (failure cy_failure) n
                (call_from env rounds n) c f).is_stuck
              ≡ true)
            (sym same)
            (by_items (drop c.reg_index regs) refl
              (λ g. call_from-stuck rounds (next_index c) g (index_below c.reg_index))))
      where
        by_items :
            (items : List KeyValue)
            → drop c.reg_index regs ≡ items
            → ((g : Fsm)
                → g.registers ≡ regs
                → (call_from env rounds n (next_index c) g).is_stuck ≡ true)
            → (call_round env items (failure cy_failure) n (call_from env rounds n) c f).is_stuck
              ≡ true
        by_items [] here later = absurd (past_end c.reg_index index here)
        by_items (item ∷ items) here later = later _ same
