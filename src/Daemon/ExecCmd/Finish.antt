-- ===== src/Daemon/ExecCmd/Finish.antt =====
-- When every node has answered, or its time is up, the channel is completed
-- (src/daemon/engine/svc/node/exec_cmd_service.cpp).
use ocvsmd.Common.{
  ℕ, suc, ◌≤◌, ◌≡◌, ◌≢◌, refl, sym, ap, ◌∙◌, subst, Bool, true, false, Option, none, some, List, [],
  ◌∷◌, arith, ◌==◌, if◌then◌else◌, ◌⊎◌, inl, inr, Option-cases, Bool-cases, has_value, ==_refl,
}
use ocvsmd.Common.Map.{Map, lookup}
use ocvsmd.Error.{OptError}
use ocvsmd.Daemon.ExecCmd.{
  ResponsePayload, NodeContext, Fsm, Service, NodeResult, answered, expired, answer,
  handle_node_response, release_node_context, release_node_in, complete_if_empty, send_response,
  complete, release_fsm_by, no_payload,
}
use ocvsmd.Daemon.ExecCmd.Frame.{answers, completions_of}
use ocvsmd.Daemon.ExecCmd.Answers.{
  counted, pending, Running, Working, running, finished, response-Working,
}

-- The callbacks of a list of nodes. One that is not waited for does not come.
abbrev pub respond_at : Option NodeContext → ℕ → ℕ → NodeResult → Service → Service
respond_at none id n res s = s
respond_at (some c) id n res s = handle_node_response id n res s

abbrev pub respond_in : Option Fsm → ℕ → ℕ → NodeResult → Service → Service
respond_in none id n res s = s
respond_in (some f) id n res s = respond_at (lookup n f.node_id_to_cnxt) id n res s

unfoldable pub respond_all : ℕ → List (ℕ × NodeResult) → Service → Service
respond_all id [] s = s
respond_all id ((n, res) ∷ rs) s = respond_all id rs (respond_in (lookup id s.id_to_fsm) id n res s)

abbrev pub Among : ℕ → List (ℕ × NodeResult) → Type 0
Among n [] = ⊥
Among n ((k, res) ∷ rs) = (k ≡ n) ⊎ Among n rs

-- A callback gives the channel one answer, of its node.
complete_if_empty-sent :
    (m : Map NodeContext) (id : ℕ) (s : Service) → (complete_if_empty m id s).sent ≡ s.sent
unfolding complete release_fsm_by
complete_if_empty-sent [] id s = refl
complete_if_empty-sent (c ∷ m) id s = refl

release-sent : (id n : ℕ) (s : Service) → (release_node_context id n s).sent ≡ s.sent
unfolding release_node_context
release-sent id n s = within (lookup id s.id_to_fsm)
  where
    within : (o : Option Fsm) → (release_node_in o id n s).sent ≡ s.sent
    within none = refl
    within (some f) = complete_if_empty-sent _ id _

answer-answers :
    (id n k : ℕ) (p : ResponsePayload) (o : OptError) (s : Service)
    → answers id k (answer id n p o s).sent
      ≡ (if n == k then suc (answers id k s.sent) else answers id k s.sent)
unfolding answer send_response answers
answer-answers id n k p o s =
    ap (answers id k) (release-sent id n (send_response id n p o s)) ∙ rw (==_refl id) refl

response-answers :
    (id n k : ℕ) (res : NodeResult) (s : Service)
    → answers id k (handle_node_response id n res s).sent
      ≡ (if n == k then suc (answers id k s.sent) else answers id k s.sent)
unfolding handle_node_response
response-answers id n k (answered p) s = answer-answers id n k p none s
response-answers id n k (expired o) s = answer-answers id n k no_payload o s

pending-le : (m : Map NodeContext) (n : ℕ) → pending m n ≤ 1
unfolding pending
pending-le m n = at (has_value (lookup n m))
  where
    at : (b : Bool) → counted b ≤ 1
    at true = omega arith
    at false = omega arith

not_pending : (m : Map NodeContext) (n : ℕ) → lookup n m ≡ none → pending m n ≡ 0
unfolding pending
not_pending m n e = rw e refl

is_pending : (m : Map NodeContext) (n : ℕ) → lookup n m ≢ none → pending m n ≡ 1
unfolding pending
is_pending m n h = elim (Option-cases (lookup n m)) [
  | inl e ↦ absurd (h e)
  | inr (c, e) ↦ rw e refl
]

some_pending : (m : Map NodeContext) → m ≢ [] → (n : ℕ) × (pending m n ≡ 1)
unfolding pending lookup
some_pending [] h = absurd (h refl)
some_pending ((k, c) ∷ m) h = (k, rw (==_refl k) refl)

module _ (id : ℕ) (nodes : Map NodeContext) where
  -- Each node was answered, or is among those to come.
  abbrev Covered : List (ℕ × NodeResult) → Service → Type 0
  Covered rs s = (n : ℕ) → pending nodes n ≡ 1 → (answers id n s.sent ≡ 1) ⊎ Among n rs

  abbrev Finished : Service → Type 0
  Finished s =
      (lookup id s.id_to_fsm ≡ none)
      × ((n : ℕ) → answers id n s.sent ≡ pending nodes n)
      × (completions_of id s.completions ≡ none ∷ [])

  all_done : (s : Service) → Working id nodes s → Covered [] s → Finished s
  all_done s (finished gone counts ends) cov = (gone, counts, ends)
  all_done s (running f r) cov =
      let (n, waits) = some_pending f.node_id_to_cnxt r.filled in
      let due : pending nodes n ≡ 1 = omega (arith, r.counts n, pending-le nodes n, waits) in
      elim (cov n due) [
        | inl once ↦ absurd (omega (arith, r.counts n, once, waits, due))
        | inr x ↦ elim x [ ]
      ]

  abbrev Onward : List (ℕ × NodeResult) → Service → Type 0
  Onward rs s = Working id nodes s × Covered rs s

  one_more :
      (n : ℕ) (res : NodeResult) (rs : List (ℕ × NodeResult)) (s : Service)
      → Working id nodes s
      → Covered ((n, res) ∷ rs) s
      → Onward rs (respond_in (lookup id s.id_to_fsm) id n res s)
  one_more n res rs s (finished gone counts ends) cov =
      subst (λ o. Onward rs (respond_in o id n res s)) (sym gone)
        (finished gone counts ends, λ k h. inl (counts k ∙ h))
  one_more n res rs s (running f r) cov =
      subst (λ o. Onward rs (respond_in o id n res s)) (sym r.found)
        (at (lookup n f.node_id_to_cnxt) refl)
    where
      skipped :
          (k : ℕ)
          → lookup n f.node_id_to_cnxt ≡ none
          → n ≡ k
          → pending nodes k ≡ 1
          → answers id k s.sent ≡ 1
      skipped k e same h =
          let idle : pending f.node_id_to_cnxt k ≡ 0 =
            subst (λ j. pending f.node_id_to_cnxt j ≡ 0) same (not_pending f.node_id_to_cnxt n e) in
          omega (arith, r.counts k, idle, h)

      first :
          (k : ℕ)
          → (n == k) ≡ true
          → lookup n f.node_id_to_cnxt ≢ none
          → pending nodes k ≡ 1
          → answers id k s.sent ≡ 0
      first k hit e h =
          let waits : pending f.node_id_to_cnxt k ≡ 1 =
            subst (λ j. pending f.node_id_to_cnxt j ≡ 1) (ground (arith, hit))
              (is_pending f.node_id_to_cnxt n e) in
          omega (arith, r.counts k, waits, h)

      at :
          (o : Option NodeContext)
          → lookup n f.node_id_to_cnxt ≡ o
          → Onward rs (respond_at o id n res s)
      at none e = (
        running f r,
        λ k h. elim (cov k h) [
          | inl once ↦ inl once
          | inr x ↦ elim x [ inl same ↦ inl (skipped k e same h) | inr later ↦ inr later ]
        ],
      )
      at (some c) e = (
        response-Working id nodes s f n c res e r,
        λ k h. elim (Bool-cases (n == k)) [
          | inl hit ↦ inl (
              response-answers id n k res s
              ∙ rw (hit, first k hit (λ z. ground (arith, e, z)) h) refl)
          | inr miss ↦ elim (cov k h) [
            | inl once ↦ inl (response-answers id n k res s ∙ rw miss once)
            | inr x ↦ elim x [
              | inl same ↦ absurd (ground (arith, miss, same))
              | inr later ↦ inr later
            ]
          ]
        ],
      )

  finish :
      (rs : List (ℕ × NodeResult)) (s : Service)
      → Working id nodes s
      → Covered rs s
      → Finished (respond_all id rs s)
  unfolding respond_all
  finish [] s w cov = all_done s w cov
  finish ((n, res) ∷ rs) s w cov = let (w', cov') = one_more n res rs s w cov in finish rs _ w' cov'

  -- From a state in which a state machine works on its nodes, once the callbacks of all of them have
  -- come, in any order and with answers or failures, the channel has been given exactly one response
  -- for each node, was completed exactly once and without an error, and the state machine is gone.
  pub all_answered-finishes :
      (s : Service) (f : Fsm) (rs : List (ℕ × NodeResult))
      → Running id nodes s f
      → ((n : ℕ) → pending nodes n ≡ 1 → Among n rs)
      → (lookup id (respond_all id rs s).id_to_fsm ≡ none)
        × ((n : ℕ) → answers id n (respond_all id rs s).sent ≡ pending nodes n)
        × (completions_of id (respond_all id rs s).completions ≡ none ∷ [])
  all_answered-finishes s f rs r all = finish rs s (running f r) (λ n h. inr (all n h))
