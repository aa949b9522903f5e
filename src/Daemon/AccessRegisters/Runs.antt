-- ===== src/Daemon/AccessRegisters/Runs.antt =====
-- A channel from its first input to its end, whatever happens
-- (src/daemon/engine/svc/node/access_registers_service.cpp).
pub mod Collecting
use ocvsmd.Common.{
  ℕ, ◌+◌, ◌<◌, ◌≡◌, ◌≢◌, refl, sym, ◌∙◌, ap, subst, ◌⊎◌, Bool, true, false, Option, none, some,
  List, [], ◌∷◌, ◌++◌, arith, length, take, drop, inl, inr, if◌then◌else◌, take-of_length-le,
}
use ocvsmd.Common.Map.{Map, lookup, insert}
use ocvsmd.Error.{error, canceled}
use ocvsmd.Daemon.CyError.{cy_failure_to_opt_error}
use ocvsmd.Daemon.AccessRegisters.{
  KeyValue, Request, NodeContext, Response, Fsm, Env, NodeResult, set_contexts, fault, complete,
  send_response, handle_input, handle_input_event, handle_completed, completed_by, process,
  index_mod, next_index, value_of, error_of, respond_at, respond_in, handle_node_response,
  start_cy_reg_access_rpc_call_for,
}
use ocvsmd.Daemon.AccessRegisters.Track.{
  told, keys, keys-told, IsFailure, names, drop-next, drop-nil, Track, Each, EachBut-send,
}
use ocvsmd.Daemon.AccessRegisters.Loop.{
  IsOpen, IsFinished, Goes, going, over, put-Goes, send_response-IsOpen,
}
use ocvsmd.Daemon.AccessRegisters.Runs.Collecting.{collect, asked_in, registers_in, begun}

-- What happens on a channel that is there: an input, its completion by the client, or the callback of a
-- node that was called. The Cyphal side may do differently each time.
pub data Step (f : Fsm) : Fsm → Type 0 where
  inputs : (r : Request) → f.is_released ≡ false → Step f (handle_input r f)
  completes :
      (env : Env) (keep_alive : Bool)
      → f.is_released ≡ false
      → Step f (handle_completed env keep_alive f)
  responds :
      (env : Env) (n : ℕ) (c : NodeContext) (result : NodeResult)
      → f.is_released ≡ false
      → lookup n f.node_id_to_cnxt ≡ some c
      → c.has_promise ≡ true
      → Step f (handle_node_response env n result f)

pub data Reach (f : Fsm) : Fsm → Type 0 where
  here : Reach f f
  next : {g h : Fsm} → Reach f g → Step g h → Reach f h

-- What a channel that was stopped was told of for a node.
abbrev pub Partly : List KeyValue → Bool → List Response → Type 0
Partly regs false t = t ≡ []
Partly regs true t = ((k : ℕ) × (keys t ≡ take k (names regs))) ⊎ IsFailure t

pub data Progress (asked : ℕ → Bool) (regs : List KeyValue) (f : Fsm) : Type 0 where
  works :
      IsOpen regs f
      → Each asked regs f.node_id_to_cnxt f.sent
      → f.node_id_to_cnxt ≢ []
      → Progress asked regs f
  finished : IsFinished asked regs f → Progress asked regs f
  stopped :
      f.is_released ≡ true
      → f.faulted ≡ false
      → f.is_stuck ≡ false
      → f.completions ≡ some (error canceled) ∷ []
      → ((n : ℕ) → Partly regs (asked n) (told n f.sent))
      → Progress asked regs f

module _ (asked : ℕ → Bool) (regs : List KeyValue) (small : length regs < index_mod) where
  Goes-Progress : (f : Fsm) → Goes asked regs [] f → Progress asked regs f
  Goes-Progress f (going o each some_left fresh) = works o each some_left
  Goes-Progress f (over done e) = finished done

  Track-Partly :
      (b : Bool) (x : Option NodeContext) (t : List Response) → Track regs b x t → Partly regs b t
  Track-Partly false none t h = h
  Track-Partly false (some c) t h = absurd h
  Track-Partly true none t (inl all) = inl (
    length (names regs),
    all ∙ sym (take-of_length-le (length (names regs)) (names regs) (omega arith)),
  )
  Track-Partly true none t (inr failed) = inr failed
  Track-Partly true (some c) t h = inl (c.reg_index, h.1)

  module _ (f : Fsm) (o : IsOpen regs f) (each : Each asked regs f.node_id_to_cnxt f.sent)
      (some_left : f.node_id_to_cnxt ≢ []) where
    input-Progress : (r : Request) → Progress asked regs (handle_input r f)
    unfolding handle_input
    input-Progress r =
        subst
          (λ b.
            Progress asked regs
              (if b then fault f else if f.processing then f else handle_input_event r f))
          (sym o.alive)
          (subst (λ b. Progress asked regs (if b then f else handle_input_event r f))
            (sym o.processing) (works o each some_left))

    completed_by-Progress :
        (env : Env) (keep_alive : Bool) → Progress asked regs (completed_by env keep_alive f)
    unfolding complete
    completed_by-Progress env true =
        subst
          (λ b. Progress asked regs (
            if b
            then f
            else process env f.node_id_to_cnxt f.registers (record f { processing = true })))
          (sym o.processing) (works o each some_left)
    completed_by-Progress env false =
        stopped refl o.fine o.moving (ap (λ cs. some (error canceled) ∷ cs) o.unended)
          (λ n. Track-Partly (asked n) (lookup n f.node_id_to_cnxt) (told n f.sent) (each n))

    completed-Progress :
        (env : Env) (keep_alive : Bool) → Progress asked regs (handle_completed env keep_alive f)
    unfolding handle_completed
    completed-Progress env keep_alive =
        subst (λ b. Progress asked regs (if b then fault f else completed_by env keep_alive f))
          (sym o.alive) (completed_by-Progress env keep_alive)

    module _ (env : Env) (n : ℕ) (c : NodeContext) (result : NodeResult)
        (called : c.has_promise ≡ true) where
      respond_at-Progress :
          (items : List KeyValue)
          → asked n ≡ true
          → Track regs true (some c) (told n f.sent)
          → drop c.reg_index regs ≡ items
          → Progress asked regs (respond_at env items n c result f)
      unfolding send_response
      respond_at-Progress [] hit t at = absurd (omega (arith, t.0, drop-nil c.reg_index regs at))
      respond_at-Progress (item ∷ items) hit t at =
          let (below, more, fits) = drop-next c.reg_index regs item items small at in
          let reply = record item { value = value_of env result } in
          Goes-Progress _ (
            put-Goes asked regs n [] hit tt small env (next_index c)
              (send_response n reply (error_of env result) f)
              (send_response-IsOpen asked regs n [] hit tt small f reply (error_of env result) o)
              (EachBut-send asked regs n f.node_id_to_cnxt _ f.sent refl (λ k _. each k))
              (keys-told n _ f.sent refl ∙ ap (λ t. t ++ item.key ∷ []) (t.1) ∙ sym more)
              (t.2 called) (omega (arith, below, fits)) tt)

      respond_in-Progress :
          (b : Bool)
          → asked n ≡ b
          → Track regs b (some c) (told n f.sent)
          → Progress asked regs (respond_in env (some c) n result f)
      respond_in-Progress false e t = absurd t
      respond_in-Progress true e t =
          subst
            (λ items. Progress asked regs (respond_at env (drop c.reg_index items) n c result f))
            (sym o.same) (respond_at-Progress (drop c.reg_index regs) e t refl)

      response-Progress :
          lookup n f.node_id_to_cnxt ≡ some c
          → Progress asked regs (handle_node_response env n result f)
      unfolding handle_node_response
      response-Progress found =
          subst
            (λ b.
              Progress asked regs
                (if b then fault f else respond_in env (lookup n f.node_id_to_cnxt) n result f))
            (sym o.alive)
            (subst (λ x. Progress asked regs (respond_in env x n result f)) (sym found)
              (respond_in-Progress (asked n) refl
                (subst (λ x. Track regs (asked n) x (told n f.sent)) found (each n))))

  Step-Progress : {f g : Fsm} → Step f g → Progress asked regs f → Progress asked regs g
  Step-Progress {f} (inputs r alive) (works o each some_left) = input-Progress f o each some_left r
  Step-Progress {f} (completes env keep_alive alive) (works o each some_left) =
      completed-Progress f o each some_left env keep_alive
  Step-Progress {f} (responds env n c result alive found called) (works o each some_left) =
      response-Progress f o each some_left env n c result called found
  Step-Progress (inputs r alive) (finished done) = cc (alive, done.gone)
  Step-Progress (completes env keep_alive alive) (finished done) = cc (alive, done.gone)
  Step-Progress (responds env n c result alive found called) (finished done) = cc (alive, done.gone)
  Step-Progress (inputs r alive) (stopped gone fine moving ended part) = cc (alive, gone)
  Step-Progress (completes env keep_alive alive) (stopped gone fine moving ended part) =
      cc (alive, gone)
  Step-Progress (responds env n c result alive found called) (stopped gone fine moving ended part) =
      cc (alive, gone)

  Reach-Progress : {f g : Fsm} → Reach f g → Progress asked regs f → Progress asked regs g
  Reach-Progress here p = p
  Reach-Progress (next path step) p = Step-Progress step (Reach-Progress path p)

-- A channel that was given any inputs, with fewer than 2 ^ 16 registers, and then told to begin is at
-- every later moment, whatever it, the nodes and the client do, at work, finished, or canceled; and no
-- loop of its calls is stuck. At work, each node asked for waits at a register and the channel was told
-- of just the registers before it, or it is done; finished, the channel was completed once without an
-- error and is gone; canceled, it was completed once as that. A node that is done has been told of for
-- all registers in their order, or just of a failure of its own if no client was made for it; one that
-- was not asked for never. The state machine is never used after its end.
pub registers_in_order :
    (rs : List Request) (env : Env) (g : Fsm)
    → length (registers_in rs) < index_mod
    → Reach (handle_completed env true (collect rs)) g
    → Progress (asked_in rs) (registers_in rs) g
registers_in_order rs env g small path =
    Reach-Progress (asked_in rs) (registers_in rs) small path
      (Goes-Progress (asked_in rs) (registers_in rs) small _ (begun rs env small))
