-- ===== src/Switchover/Locked.antt =====
-- The stages of a switchover: internal/controller/switchover/executor.go on the plans of
-- internal/controller/switchover/controller.go.
use mha_go.Base.{
  ℕ, Bool, true, false, not, ◌&&◌, ◌==◌, Text, List, [], ◌∷◌, ◌++◌, append-nil, is_nil, none, some,
  Result, ok, if◌then◌else◌, ◌≡◌, subst, refl, sym, ◌∙◌, inl, inr, Bool-cases, Option-cases, arith,
}
use mha_go.Domain.Spec.{ClusterSpec}
use mha_go.Domain.View.{ClusterView, NodeState}
use mha_go.Domain.Run.{RunStatus}
use mha_go.Domain.Switchover.{SwitchoverPlan}
use mha_go.Effects.{Env, then_do, update_run}
use mha_go.Effects.Log.{Calls, log, log_from, log-quiet}
use mha_go.Effects.Jobs.{JobOf, Conforms, finished, went_on, gave_up}
use mha_go.Switchover.Plan.{plan_for, build_switchover_steps, has_other_replicas, plan_of}
use mha_go.Switchover.Executor.{
  SwitchCall, precheck_endpoint, lock_candidate, lock_old_primary, wait_catchup, promote,
  repoint_replicas, repoint_old_primary, switch_endpoint, verify_endpoint, verify_cluster, Trace,
  execute_plan, create_outcome, lease_outcome, create_effect, lease_effect,
}
use mha_go.Switchover.Lossless.{plan_for-plan_of}
use mha_go.Switchover.Rounds.{jobs_of}
use mha_go.Switchover.Order.{switchover_ordered}

-- The stages: nothing done, the candidate locked, the old primary locked too, the candidate
-- caught up, the candidate promoted.
abbrev pub stage_after : SwitchCall → ℕ → ℕ
stage_after lock_candidate n = if n == 0 then 1 else n
stage_after lock_old_primary n = if n == 1 then 2 else n
stage_after wait_catchup n = if n == 2 then 3 else n
stage_after promote n = if n == 3 then 4 else n
stage_after _ n = n

-- The stage that a call asks for.
abbrev pub allowed : SwitchCall → ℕ → Bool
allowed precheck_endpoint n = n == 0
allowed lock_candidate n = n == 0
allowed lock_old_primary n = n == 1
allowed wait_catchup n = n == 2
allowed promote n = n == 3
allowed repoint_replicas n = n == 4
allowed repoint_old_primary n = n == 4
allowed switch_endpoint n = n == 4
allowed verify_endpoint n = n == 4
allowed verify_cluster n = n == 4

-- Whether every call of a log comes at its stage, and none behind one with an error.
unfoldable pub in_stage : ℕ → Calls SwitchCall → Bool
in_stage n [] = true
in_stage n ((c, none) ∷ l) = allowed c n && in_stage (stage_after c n) l
in_stage n ((c, some e) ∷ l) = allowed c n && is_nil l

-- The same of the calls of a plan.
unfoldable jobs_in_stage : ℕ → List (JobOf SwitchCall) → Bool
jobs_in_stage n [] = true
jobs_in_stage n ((c, optional) ∷ jobs) =
    not optional && (allowed c n && jobs_in_stage (stage_after c n) jobs)

Conforms-in_stage :
    (n : ℕ) {jobs : List (JobOf SwitchCall)} {l : Calls SwitchCall} {b : Bool}
    → Conforms jobs l b
    → jobs_in_stage n jobs ≡ true
    → in_stage n l ≡ true
unfolding in_stage jobs_in_stage
Conforms-in_stage n finished h = refl
Conforms-in_stage n (went_on {c} (inl e) more) h =
    rw e (ground (arith, Conforms-in_stage (stage_after c n) more))
Conforms-in_stage n (went_on (inr e) more) h = ground arith
Conforms-in_stage n gave_up h = ground arith

build_switchover_steps-in_stage :
    (spec : ClusterSpec) (candidate_id primary_id : Text) (endpoint : Bool)
    → jobs_in_stage 0 (jobs_of (build_switchover_steps spec candidate_id primary_id endpoint))
      ≡ true
unfolding build_switchover_steps jobs_of jobs_in_stage
build_switchover_steps-in_stage spec c p true = elim (Bool-cases (has_other_replicas spec c p)) [
  | inl e ↦ rw e refl
  | inr e ↦ rw e refl
]
build_switchover_steps-in_stage spec c p false = elim (Bool-cases (has_other_replicas spec c p)) [
  | inl e ↦ rw e refl
  | inr e ↦ rw e refl
]

-- The plans of a discovered view have their calls in stage.
plan_for-in_stage :
    (spec : ClusterSpec) (select : ClusterView → Result Text NodeState) (now : ℕ)
    (view : ClusterView) {plan : SwitchoverPlan}
    → plan_for spec select now view ≡ ok plan
    → jobs_in_stage 0 (jobs_of plan.steps) ≡ true
plan_for-in_stage spec select now view {plan} h =
    let (primary, candidate, e) = plan_for-plan_of spec select now view h in
    subst (λ p. jobs_in_stage 0 (jobs_of p.steps) ≡ true) e
      (unfold plan_of in build_switchover_steps-in_stage spec candidate.id primary.id _)

-- What an execution adds to the log of a trace is in stage.
abbrev pub IsStaged : Env SwitchCall → Trace → Trace → Type 0
IsStaged env t t' = (l : Calls SwitchCall) × (log env t' ≡ log env t ++ l) × (in_stage 0 l ≡ true)

quiet-IsStaged : (env : Env SwitchCall) (t t' : Trace) → log env t' ≡ log env t → IsStaged env t t'
quiet-IsStaged env t t' e = ([], e ∙ sym (append-nil (log env t)), unfold in_stage in refl)

module _ (env : Env SwitchCall) (spec : ClusterSpec) (select : ClusterView → Result Text NodeState)
    (now : ℕ) (view : ClusterView) {plan : SwitchoverPlan} (dry_run : Bool) (t : Trace) where
  -- However its calls are answered, the execution of a planned switchover locks the candidate
  -- before the old primary, waits for the candidate only with both locked, promotes it only once it
  -- has caught up, and repoints replicas, switches the endpoint and verifies only behind the promotion;
  -- the endpoint is prechecked only before the locks. No call is made behind one that was answered with an
  -- error.
  pub execute_plan-IsStaged :
      plan_for spec select now view ≡ ok plan
      → IsStaged env t (execute_plan env spec plan dry_run t).trace
  unfolding execute_plan
  execute_plan-IsStaged h =
      elim (Option-cases (env.error_of t (create_effect env spec plan dry_run))) [
        | inr (e, failed) ↦ rw failed (
            unfold create_outcome in
            quiet-IsStaged env t _ (
              log-quiet env t (create_effect env spec plan dry_run ∷ [])
                (λ u. unfold log_from create_effect in refl)))
        | inl created ↦
            elim (Option-cases (
              env.error_of (then_do t (create_effect env spec plan dry_run))
                (lease_effect env spec plan dry_run))) [
                  | inr (e, failed) ↦ rw created (
                      unfold create_outcome in
                      rw failed (
                        unfold lease_outcome in
                        quiet-IsStaged env t _ (
                          log-quiet env (then_do t (create_effect env spec plan dry_run))
                            (lease_effect env spec plan dry_run
                              ∷ update_run (env.run_id t) RunStatus.failed e
                              ∷ [])
                            (λ u. unfold log_from lease_effect in refl)
                          ∙ log-quiet env t (create_effect env spec plan dry_run ∷ [])
                              (λ u. unfold log_from create_effect in refl))))
                  | inl leased ↦
                      let run = switchover_ordered env spec plan dry_run t created leased in
                      (
                        run.logged,
                        unfold execute_plan in run.log_grows,
                        Conforms-in_stage 0 run.conforms (plan_for-in_stage spec select now view h),
                      )
                ]
      ]
