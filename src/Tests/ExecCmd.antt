-- ===== src/Tests/ExecCmd.antt =====
-- src/daemon/engine/svc/node/exec_cmd_service.cpp with a channel that asks two nodes.
use ocvsmd.Common.{
  ℕ, ◌≡◌, refl, true, false, none, some, List, [], ◌∷◌, arith, inl, inr, Bool-cases, ◌==◌,
}
use ocvsmd.Common.Map.{lookup}
use ocvsmd.Daemon.ExecCmd
use ocvsmd.Daemon.ExecCmd.{
  RequestPayload, ResponsePayload, NodeContext, Fsm, Service, Env, success, NodeResult, answered,
  expired, handle_completed, Request, serve,
}
use ocvsmd.Daemon.ExecCmd.Frame.{answers, completions_of}
use ocvsmd.Daemon.ExecCmd.Answers.{pending, Running}
use ocvsmd.Daemon.ExecCmd.Finish.{respond_all, Among, all_answered-finishes}
use ocvsmd.Daemon.ExecCmd.Sound.{IsSound}
use ocvsmd.Daemon.ExecCmd.Lifetime.{never_faulted}
use ocvsmd.Daemon.ExecCmd.Runs.{Progress, here, next, serves, answered_once}

abbrev willing : Env
willing = record { make_client = λ s n. success; request = λ s n. success }

abbrev reboot : RequestPayload
reboot = record { command = 65535; parameter = [] }

abbrev context : NodeContext
context = record { timeout = 1000; payload = reboot; has_client = false; has_promise = false }

abbrev waiting : NodeContext
waiting = record { timeout = 1000; payload = reboot; has_client = true; has_promise = true }

abbrev asked : Fsm
asked = record { processing = false; node_id_to_cnxt = (42, context) ∷ (43, context) ∷ [] }

abbrev service : Service
service = record ExecCmd.init { next_fsm_id = 1; id_to_fsm = (0, asked) ∷ [] }

asked_found : lookup 0 service.id_to_fsm ≡ some asked
unfolding lookup
asked_found = refl

untold : (n : ℕ) → answers 0 n service.sent ≡ 0
unfolding answers
untold n = refl

unended : completions_of 0 service.completions ≡ []
unfolding completions_of
unended = refl

answered_once_example : Progress 0 asked.node_id_to_cnxt (handle_completed willing 0 true service)
answered_once_example =
    answered_once willing 0 service asked asked_found refl untold unended
      (handle_completed willing 0 true service) (omega arith) here

abbrev busy : Fsm
busy = record { processing = true; node_id_to_cnxt = (42, waiting) ∷ (43, waiting) ∷ [] }

abbrev at_work : Service
at_work = record ExecCmd.init { next_fsm_id = 1; id_to_fsm = (0, busy) ∷ [] }

busy-Running : Running 0 busy.node_id_to_cnxt at_work busy
unfolding lookup answers completions_of
busy-Running = record {
  found = refl;
  processing = refl;
  filled = λ e. cc;
  counts = λ n. omega arith;
  open_channel = refl;
}

abbrev callbacks : List (ℕ × NodeResult)
callbacks = (43, expired none) ∷ (42, answered (record { status = 0; output = [] })) ∷ []

both_called : (n : ℕ) → pending busy.node_id_to_cnxt n ≡ 1 → Among n callbacks
unfolding pending lookup
both_called n h = elim (Bool-cases (42 == n)) [
  | inl hit ↦ inr (inl (ground (arith, hit)))
  | inr miss ↦ elim (Bool-cases (43 == n)) [
    | inl hit ↦ inl (ground (arith, hit))
    | inr other ↦ absurd (ground (arith, miss, other, h))
  ]
]

all_answered-finishes_example :
    (lookup 0 (respond_all 0 callbacks at_work).id_to_fsm ≡ none)
    × ((n : ℕ)
        → answers 0 n (respond_all 0 callbacks at_work).sent ≡ pending busy.node_id_to_cnxt n)
    × (completions_of 0 (respond_all 0 callbacks at_work).completions ≡ none ∷ [])
all_answered-finishes_example =
    all_answered-finishes 0 busy.node_id_to_cnxt at_work busy callbacks busy-Running both_called

abbrev request : Request
request = record { timeout_us = 1000; node_ids = 42 ∷ 43 ∷ 42 ∷ []; payload = reboot }

never_faulted_example : IsSound (serve request ExecCmd.init)
never_faulted_example =
    never_faulted willing (serve request ExecCmd.init) (next here (serves request (omega arith)))
