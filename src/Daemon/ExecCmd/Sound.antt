-- ===== src/Daemon/ExecCmd/Sound.antt =====
-- The service never works on a state machine that was destroyed
-- (src/daemon/engine/svc/node/exec_cmd_service.cpp). `complete` destroys the state machine while its own
-- operations run, in the middle of a loop too, so this needs that no context is left at that point.
use ocvsmd.Common.{ℕ, ◌≡◌, subst, false, some, List, [], ◌∷◌, arith, ◌==◌, inl, inr, Bool-cases}
use ocvsmd.Common.Map.{Map, lookup, lookup-insert, lookup-erase}
use ocvsmd.Common.Map.Keys.{Distinct, emplace-Distinct}
use ocvsmd.Error.{OptError}
use ocvsmd.Daemon.ExecCmd.{NodeContext, Fsm, Service, set_fsm, release_fsm_by, complete, add_nodes}

pub add_nodes-Distinct :
    (ns : List ℕ) (c : NodeContext) (m : Map NodeContext) → Distinct m → Distinct (add_nodes ns c m)
unfolding add_nodes
add_nodes-Distinct [] c m h = h
add_nodes-Distinct (n ∷ ns) c m h = add_nodes-Distinct ns c _ (emplace-Distinct n c m h)

pub record IsSound (s : Service) : Type 0 where
  pub fine : s.faulted ≡ false
  pub distinct : (id : ℕ) (f : Fsm) → lookup id s.id_to_fsm ≡ some f → Distinct f.node_id_to_cnxt

pub set_fsm-IsSound :
    (id : ℕ) (f : Fsm) (s : Service)
    → Distinct f.node_id_to_cnxt
    → IsSound s
    → IsSound (set_fsm id f s)
set_fsm-IsSound id f s d h = record {
  fine = h.fine;
  distinct = λ j g e. elim (Bool-cases (id == j)) [
    | inl hit ↦
        let same : f ≡ g = ground (arith, lookup-insert id j f s.id_to_fsm, hit, e) in
        subst (λ (x : Fsm). Distinct x.node_id_to_cnxt) same d
    | inr miss ↦ h.distinct j g (ground (arith, lookup-insert id j f s.id_to_fsm, miss, e))
  ];
}

pub complete-IsSound : (id : ℕ) (o : OptError) (s : Service) → IsSound s → IsSound (complete id o s)
unfolding complete release_fsm_by
complete-IsSound id o s h = record {
  fine = h.fine;
  distinct = λ j g e. h.distinct j g (ground (arith, lookup-erase id j s.id_to_fsm, e));
}
