-- ===== src/Failover/Fenced.antt =====
-- The old primary is fenced before the candidate is promoted: internal/controller/failover/executor.go
-- on the plans of internal/controller/failover/controller.go.
use mha_go.Base.{
  ℕ, Bool, true, false, Text, List, [], ◌∷◌, ◌++◌, append-nil, none, some, Option-cases, Bool-cases,
  inl, inr, ◌≡◌, refl, sym, ◌∙◌,
}
use mha_go.Domain.Spec.{ClusterSpec}
use mha_go.Domain.View.{ClusterView, NodeState}
use mha_go.Domain.Run.{RunStatus}
use mha_go.Domain.Plan.{FailoverPlan}
use mha_go.Effects.{Env, then_do, update_run}
use mha_go.Failover.Plan.{make_plan}
use mha_go.Failover.Actions.{
  Call, Trace, precheck, fence, promote, repoint, switch_endpoint, verify_endpoint, verify, salvage,
}
use mha_go.Failover.Executor.{
  execute_plan, create_outcome, lease_outcome, create_effect, lease_effect,
}
use mha_go.Failover.Executor.Log.{Log, log, log_from, log-quiet}
use mha_go.Failover.Executor.Jobs.{Job, Conforms, went_on, gave_up, plan_jobs, jobs_if}
use mha_go.Failover.Runs.{failover_blocked, failover_ordered}

-- Whether every promotion comes behind a fencing that did not fail.
unfoldable pub fenced_first : Log → Bool
fenced_first [] = true
fenced_first ((fence, none) ∷ l) = true
fenced_first ((fence, some e) ∷ l) = fenced_first l
fenced_first ((promote, a) ∷ l) = false
fenced_first ((precheck, a) ∷ l) = fenced_first l
fenced_first ((repoint, a) ∷ l) = fenced_first l
fenced_first ((switch_endpoint, a) ∷ l) = fenced_first l
fenced_first ((verify_endpoint, a) ∷ l) = fenced_first l
fenced_first ((verify, a) ∷ l) = fenced_first l
fenced_first ((salvage s, a) ∷ l) = fenced_first l

from_fence :
    {jobs : List Job} {l : Log} {b : Bool}
    → Conforms ((fence, false) ∷ jobs) l b
    → fenced_first l ≡ true
unfolding fenced_first
from_fence (went_on (inl e) more) = rw e refl
from_fence (went_on (inr e) more) = cc
from_fence gave_up = refl

from_precheck :
    (test : Bool) (jobs : List Job) {l : Log} {b : Bool}
    → Conforms (jobs_if test ((precheck, false) ∷ []) ++ ((fence, false) ∷ jobs)) l b
    → fenced_first l ≡ true
unfolding fenced_first
from_precheck true jobs (went_on h more) = from_fence more
from_precheck true jobs gave_up = refl
from_precheck false jobs c = from_fence c

plan_jobs-fenced :
    (plan : FailoverPlan) {l : Log} {b : Bool}
    → Conforms (plan_jobs plan) l b
    → fenced_first l ≡ true
unfolding plan_jobs
plan_jobs-fenced plan c = from_precheck plan.requires_writer_endpoint_switch _ c

module _ (env : Env Call) (spec : ClusterSpec) (view : ClusterView) (old_primary c : NodeState)
    (now : ℕ) (dry_run : Bool) (t : Trace) where
  abbrev built : FailoverPlan
  built = make_plan spec view old_primary c now

  no_call :
      log env (execute_plan env spec built dry_run t).trace ≡ log env t
      → (l : Log) × (log env (execute_plan env spec built dry_run t).trace ≡ log env t ++ l)
        × (fenced_first l ≡ true)
  unfolding fenced_first
  no_call e = ([], e ∙ sym (append-nil (log env t)), refl)

  not_created :
      {e : Text}
      → env.error_of t (create_effect env spec built dry_run) ≡ some e
      → log env (execute_plan env spec built dry_run t).trace ≡ log env t
  unfolding execute_plan create_outcome
  not_created e = rw e (
      log-quiet env t (create_effect env spec built dry_run ∷ [])
        (λ u. unfold log_from create_effect in refl))

  not_leased :
      {e : Text}
      → env.error_of t (create_effect env spec built dry_run) ≡ none
      → env.error_of
          (then_do t (create_effect env spec built dry_run))
          (lease_effect env spec built dry_run)
        ≡ some e
      → log env (execute_plan env spec built dry_run t).trace ≡ log env t
  not_leased {e} created leased =
      unfold execute_plan in
      rw created (
        unfold create_outcome in
        rw leased (
          unfold lease_outcome in
          (log-quiet env _
              (lease_effect env spec built dry_run
                ∷ update_run (env.run_id t) RunStatus.failed e
                ∷ [])
              (λ u. unfold log_from lease_effect in refl)
            ∙ log-quiet env t (create_effect env spec built dry_run ∷ [])
                (λ u. unfold log_from create_effect in refl))))

  with_lease :
      env.error_of t (create_effect env spec built dry_run) ≡ none
      → env.error_of
          (then_do t (create_effect env spec built dry_run))
          (lease_effect env spec built dry_run)
        ≡ none
      → (l : Log) × (log env (execute_plan env spec built dry_run t).trace ≡ log env t ++ l)
        × (fenced_first l ≡ true)
  with_lease created leased = elim (Bool-cases built.execution_permitted) [
    | inl p ↦
        let run = failover_ordered env spec view old_primary c now dry_run t p created leased in
        (run.logged, run.log_grows, plan_jobs-fenced built run.conforms)
    | inr p ↦ no_call (failover_blocked env spec view old_primary c now dry_run t p).0
  ]

  -- Whatever fails, executing a plan never promotes the candidate before a fencing of the old primary
  -- has come back without an error, in the calls that it adds to the log.
  pub promoted_after_fencing :
      (l : Log) × (log env
          (execute_plan env spec (make_plan spec view old_primary c now) dry_run t).trace
        ≡ log env t ++ l)
      × (fenced_first l ≡ true)
  promoted_after_fencing =
      elim (Option-cases (env.error_of t (create_effect env spec built dry_run))) [
        | inr (e, created) ↦ no_call (not_created created)
        | inl created ↦
            elim (Option-cases (
              env.error_of (then_do t (create_effect env spec built dry_run))
                (lease_effect env spec built dry_run))) [
                  | inr (e, leased) ↦ no_call (not_leased created leased)
                  | inl leased ↦ with_lease created leased
                ]
      ]
