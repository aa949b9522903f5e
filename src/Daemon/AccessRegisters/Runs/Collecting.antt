-- ===== src/Daemon/AccessRegisters/Runs/Collecting.antt =====
-- The inputs of a channel before it begins (src/daemon/engine/svc/node/access_registers_service.cpp).
use ocvsmd.Common.{
  ℕ, ◌<◌, length, ◌≡◌, ◌≢◌, refl, sym, ◌∙◌, ap, subst, Bool, true, false, ◌||◌, Option, none, some,
  List, [], ◌∷◌, ◌++◌, arith, ◌==◌, inl, inr, Bool-cases, if◌then◌else◌, append-nil, take,
}
use ocvsmd.Common.Map.{Map, lookup, emplace, keys, lookup-emplace_self, lookup-emplace_ne}
use ocvsmd.Common.Map.Keys.{
  Distinct, emplace-Distinct, Present, keys-Present, keys-NoRepeat, NoRepeat, lookup-nil,
}
use ocvsmd.Daemon.AccessRegisters.{
  KeyValue, Request, empty, scope, register, context, NodeContext, Fsm, Env, make, fault, complete,
  index_mod, add_nodes, handle_input, handle_input_event, handle_completed, completed_by, process,
}
use ocvsmd.Daemon.AccessRegisters.Track.{told, Track, Fresh, names}
use ocvsmd.Daemon.AccessRegisters.Loop.{IsFinished, Goes, going, over, make_each-Goes}

-- The state machine after inputs, the newest first; the oldest is the request that made it.
unfoldable pub collect : List Request → Fsm
collect [] = make
collect (r ∷ earlier) = handle_input r (collect earlier)

abbrev pub contains : List ℕ → ℕ → Bool
contains [] n = false
contains (k ∷ ks) n = k == n || contains ks n

abbrev pub named : Request → ℕ → Bool
named empty n = false
named (scope timeout_us node_ids) n = contains node_ids n
named (register item) n = false

-- The nodes and the registers that inputs ask for.
abbrev pub asked_in : List Request → ℕ → Bool
asked_in [] n = false
asked_in (r ∷ earlier) n = asked_in earlier n || named r n

abbrev pub register_of : Request → List KeyValue
register_of empty = []
register_of (scope timeout_us node_ids) = []
register_of (register item) = item ∷ []

abbrev pub registers_in : List Request → List KeyValue
registers_in [] = []
registers_in (r ∷ earlier) = registers_in earlier ++ register_of r

abbrev Waits : Bool → Option NodeContext → Type 0
Waits false none = Unit
Waits false (some c) = ⊥
Waits true none = ⊥
Waits true (some c) = (c.reg_index ≡ 0) × (c.has_promise ≡ false)

abbrev AllWait : (ℕ → Bool) → Map NodeContext → Type 0
AllWait asked m = (n : ℕ) → Waits (asked n) (lookup n m)

record IsCollecting (asked : ℕ → Bool) (regs : List KeyValue) (f : Fsm) : Type 0 where
  idle : f.processing ≡ false
  same : f.registers ≡ regs
  alive : f.is_released ≡ false
  fine : f.faulted ≡ false
  moving : f.is_stuck ≡ false
  unended : f.completions ≡ []
  unsent : f.sent ≡ []
  distinct : Distinct f.node_id_to_cnxt
  wait : AllWait asked f.node_id_to_cnxt

or_nil : (b : Bool) → b ≡ (b || false)
or_nil true = refl
or_nil false = refl

or_assoc : (a b c : Bool) → ((a || b) || c) ≡ (a || (b || c))
or_assoc true b c = refl
or_assoc false b c = refl

emplace-Waits :
    (asked : ℕ → Bool) (k t : ℕ) (m : Map NodeContext)
    → AllWait asked m
    → AllWait (λ n. asked n || k == n) (emplace k (context t) m)
emplace-Waits asked k t m h n = elim (Bool-cases (k == n)) [
  | inl hit ↦
      let e : k ≡ n = ground (arith, hit) in
      rw hit (
        subst (λ j. Waits (asked j || true) (lookup j (emplace k (context t) m))) e
          (subst (Waits (asked k || true)) (sym (lookup-emplace_self k (context t) m))
            (there (asked k) (lookup k m) (h k))))
  | inr miss ↦ rw miss (
      subst (λ b. Waits b (lookup n (emplace k (context t) m))) (or_nil (asked n))
        (subst (Waits (asked n)) (sym (lookup-emplace_ne k n (context t) m miss)) (h n)))
]
  where
    there :
        (b : Bool) (o : Option NodeContext)
        → Waits b o
        → Waits (b || true) (elim o [ none ↦ some (context t) | some w ↦ some w ])
    there false none w = (refl, refl)
    there false (some c) w = absurd w
    there true none w = absurd w
    there true (some c) w = w

add_nodes-Waits :
    (asked : ℕ → Bool) (t : ℕ) (ns : List ℕ) (m : Map NodeContext)
    → AllWait asked m
    → AllWait (λ n. asked n || contains ns n) (add_nodes t ns m)
unfolding add_nodes
add_nodes-Waits asked t [] m h n = subst (λ b. Waits b (lookup n m)) (or_nil (asked n)) (h n)
add_nodes-Waits asked t (k ∷ ns) m h n =
    subst (λ b. Waits b (lookup n (add_nodes t ns (emplace k (context t) m))))
      (or_assoc (asked n) (k == n) (contains ns n))
      (add_nodes-Waits (λ j. asked j || k == j) t ns (emplace k (context t) m)
        (emplace-Waits asked k t m h) n)

add_nodes-Distinct :
    (t : ℕ) (ns : List ℕ) (m : Map NodeContext) → Distinct m → Distinct (add_nodes t ns m)
unfolding add_nodes
add_nodes-Distinct t [] m h = h
add_nodes-Distinct t (k ∷ ns) m h =
    add_nodes-Distinct t ns (emplace k (context t) m) (emplace-Distinct k (context t) m h)

unnamed-Waits :
    (asked : ℕ → Bool) (m : Map NodeContext) → AllWait asked m → AllWait (λ n. asked n || false) m
unnamed-Waits asked m h n = subst (λ b. Waits b (lookup n m)) (or_nil (asked n)) (h n)

event-IsCollecting :
    (r : Request) (asked : ℕ → Bool) (regs : List KeyValue) (f : Fsm)
    → IsCollecting asked regs f
    → IsCollecting (λ n. asked n || named r n) (regs ++ register_of r) (handle_input_event r f)
unfolding handle_input_event
event-IsCollecting empty asked regs f h = record {
  idle = h.idle;
  same = h.same ∙ sym (append-nil regs);
  alive = h.alive;
  fine = h.fine;
  moving = h.moving;
  unended = h.unended;
  unsent = h.unsent;
  distinct = h.distinct;
  wait = unnamed-Waits asked f.node_id_to_cnxt h.wait;
}
event-IsCollecting (scope t ns) asked regs f h = record {
  idle = h.idle;
  same = h.same ∙ sym (append-nil regs);
  alive = h.alive;
  fine = h.fine;
  moving = h.moving;
  unended = h.unended;
  unsent = h.unsent;
  distinct = add_nodes-Distinct t ns f.node_id_to_cnxt h.distinct;
  wait = add_nodes-Waits asked t ns f.node_id_to_cnxt h.wait;
}
event-IsCollecting (register item) asked regs f h = record {
  idle = h.idle;
  same = ap (λ items. items ++ item ∷ []) h.same;
  alive = h.alive;
  fine = h.fine;
  moving = h.moving;
  unended = h.unended;
  unsent = h.unsent;
  distinct = h.distinct;
  wait = unnamed-Waits asked f.node_id_to_cnxt h.wait;
}

collect-IsCollecting :
    (rs : List Request) → IsCollecting (asked_in rs) (registers_in rs) (collect rs)
unfolding collect handle_input lookup Distinct
collect-IsCollecting [] = record {
  idle = refl;
  same = refl;
  alive = refl;
  fine = refl;
  moving = refl;
  unended = refl;
  unsent = refl;
  distinct = tt;
  wait = λ n. tt;
}
collect-IsCollecting (r ∷ earlier) =
    let h = collect-IsCollecting earlier in
    let f = collect earlier in
    subst
      (λ b.
        IsCollecting (asked_in (r ∷ earlier)) (registers_in (r ∷ earlier))
          (if b then fault f else if f.processing then f else handle_input_event r f))
      (sym h.alive)
      (subst
        (λ b.
          IsCollecting (asked_in (r ∷ earlier)) (registers_in (r ∷ earlier))
            (if b then f else handle_input_event r f))
        (sym h.idle) (event-IsCollecting r (asked_in earlier) (registers_in earlier) f h))

-- What waits before the begin is fit for it.
Waits-Track :
    (item : KeyValue) (regs : List KeyValue) (b : Bool) (o : Option NodeContext)
    → Waits b o
    → Track (item ∷ regs) b o []
Waits-Track item regs false none w = refl
Waits-Track item regs false (some c) w = absurd w
Waits-Track item regs true none w = absurd w
Waits-Track item regs true (some c) w =
    (omega (arith, w.0), ap (λ i. take i (names (item ∷ regs))) (sym w.0), λ e. cc (e, w.1))

Waits-none : (regs : List KeyValue) (b : Bool) → Waits b none → Track regs b none []
Waits-none regs false w = refl
Waits-none regs true w = absurd w

nothing-Track : (b : Bool) → Track [] b none []
nothing-Track false = refl
nothing-Track true = inl refl

Waits-some :
    (b : Bool) (o : Option NodeContext)
    → Waits b o
    → o ≢ none
    → (c : NodeContext) × (o ≡ some c) × (c.reg_index ≡ 0)
Waits-some false none w some_there = absurd (some_there refl)
Waits-some false (some c) w some_there = absurd w
Waits-some true none w some_there = absurd w
Waits-some true (some c) w some_there = (c, refl, w.0)

Present-Fresh :
    (asked : ℕ → Bool) (m : Map NodeContext) (ns : List ℕ)
    → AllWait asked m
    → Present m ns
    → Fresh m ns
Present-Fresh asked m [] h p = tt
Present-Fresh asked m (n ∷ ns) h p =
    (Waits-some (asked n) (lookup n m) (h n) p.0, Present-Fresh asked m ns h p.1)

module _ (asked : ℕ → Bool) (env : Env) where
  ended-IsFinished :
      (regs : List KeyValue) (f : Fsm)
      → IsCollecting asked regs f
      → ((n : ℕ) → Track regs (asked n) none [])
      → IsFinished asked regs (complete none (record f { processing = true }))
  unfolding complete told
  ended-IsFinished regs f h each = record {
    gone = refl;
    fine = h.fine;
    moving = h.moving;
    ended = ap (λ cs. none ∷ cs) h.unended;
    each = λ n. subst (λ s. Track regs (asked n) none (told n s)) (sym h.unsent) (each n);
  }

  -- By the nodes and the registers that there are.
  process-Goes :
      (m : Map NodeContext) (regs : List KeyValue) (f : Fsm)
      → IsCollecting asked regs f
      → f.node_id_to_cnxt ≡ m
      → length regs < index_mod
      → Goes asked regs [] (process env m regs (record f { processing = true }))
  unfolding told
  process-Goes [] regs f h e small =
      over
        (ended-IsFinished regs f h (λ n.
          Waits-none regs (asked n) (
            subst (Waits (asked n)) (ap (lookup n) e ∙ lookup-nil {V = NodeContext} n) (h.wait n))))
        refl
  process-Goes (c ∷ m) [] f h e small =
      over (ended-IsFinished [] f h (λ n. nothing-Track (asked n))) refl
  process-Goes (c ∷ m) (item ∷ items) f h e small =
      make_each-Goes asked (item ∷ items) env small (keys (c ∷ m)) (record f { processing = true })
        (subst (λ x. NoRepeat (keys x)) e (keys-NoRepeat f.node_id_to_cnxt h.distinct))
        (going
          (record {
            processing = refl;
            same = h.same;
            alive = h.alive;
            fine = h.fine;
            moving = h.moving;
            unended = h.unended;
            distinct = h.distinct;
          })
          (λ n.
            subst (λ s. Track (item ∷ items) (asked n) (lookup n f.node_id_to_cnxt) (told n s))
              (sym h.unsent)
              (Waits-Track item items (asked n) (lookup n f.node_id_to_cnxt) (h.wait n)))
          (λ none_left. cc (none_left, e))
          (subst (λ x. Fresh f.node_id_to_cnxt (keys x)) e
            (Present-Fresh asked f.node_id_to_cnxt (keys f.node_id_to_cnxt) h.wait
              (keys-Present f.node_id_to_cnxt))))

-- The completion that tells a channel to begin.
pub begun :
    (rs : List Request) (env : Env)
    → length (registers_in rs) < index_mod
    → Goes (asked_in rs) (registers_in rs) [] (handle_completed env true (collect rs))
unfolding handle_completed
begun rs env small =
    let f = collect rs in
    let h = collect-IsCollecting rs in
    subst
      (λ b.
        Goes (asked_in rs) (registers_in rs) [] (if b then fault f else completed_by env true f))
      (sym h.alive)
      (subst
        (λ b. Goes (asked_in rs) (registers_in rs) [] (
          if b
          then f
          else process env f.node_id_to_cnxt f.registers (record f { processing = true })))
        (sym h.idle)
        (subst
          (λ items.
            Goes (asked_in rs) (registers_in rs) []
              (process env f.node_id_to_cnxt items (record f { processing = true })))
          (sym h.same)
          (process-Goes (asked_in rs) env f.node_id_to_cnxt (registers_in rs) f h refl small)))
