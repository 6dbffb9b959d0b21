-- ===== src/Failover/Executor/Jobs.antt =====
-- The calls that the steps of a plan stand for, and what a log of them may look like:
-- internal/controller/failover/executor.go.
use mha_go.Base.{
  ℕ, ◌+◌, Bool, true, false, not, List, [], ◌∷◌, ◌++◌, map, Option, none, some, ◌≡◌, get_elem?,
}
use mha_go.Domain.Plan.{
  SalvageAction, StepName, precheck_writer_endpoint, fence_old_primary, recover, promote_candidate,
  repoint_replicas, switch_writer_endpoint, verify_writer_endpoint, verify_cluster, StepStatus,
  FailoverStep, FailoverPlan,
}
use mha_go.Failover.Actions.{
  Call, precheck, fence, promote, repoint, switch_endpoint, verify_endpoint, verify, salvage,
}
use mha_go.Effects.Jobs.{JobOf}
pub use mha_go.Effects.Jobs.{Conforms, finished, went_on, gave_up}

abbrev pub Job : Type 0
Job = JobOf Call

-- The call of a step that salvages nothing.
abbrev pub plain : StepName → Option Call
plain precheck_writer_endpoint = some precheck
plain fence_old_primary = some fence
plain promote_candidate = some promote
plain repoint_replicas = some repoint
plain switch_writer_endpoint = some switch_endpoint
plain verify_writer_endpoint = some verify_endpoint
plain verify_cluster = some verify
plain _ = none

abbrev pub jobs_if : Bool → List Job → List Job
jobs_if true jobs = jobs
jobs_if false jobs = []

module _ (plan : FailoverPlan) where
  -- Steps that stand for jobs, from a `salvageIndex` on.
  pub data Stands : ℕ → List FailoverStep → List Job → Type 0 where
    empty : {i : ℕ} → Stands i [] []
    already :
        {i : ℕ} {s : FailoverStep} {steps : List FailoverStep} {jobs : List Job}
        → s.blocking ≡ false
        → s.status ≡ StepStatus.completed
        → Stands i steps jobs
        → Stands i (s ∷ steps) jobs
    runs :
        {i : ℕ} {s : FailoverStep} {steps : List FailoverStep} {jobs : List Job} {c : Call}
        → s.blocking ≡ false
        → s.status ≡ StepStatus.pending
        → plain s.name ≡ some c
        → Stands i steps jobs
        → Stands i (s ∷ steps) ((c, false) ∷ jobs)
    salvages :
        {i : ℕ} {s : FailoverStep} {steps : List FailoverStep} {jobs : List Job} {a : SalvageAction}
        → s.blocking ≡ false
        → s.status ≡ StepStatus.pending
        → s.name ≡ recover a.kind
        → s.required ≡ a.required
        → get_elem? plan.salvage_actions i ≡ some a
        → Stands (i + 1) steps jobs
        → Stands i (s ∷ steps) ((salvage a, not a.required) ∷ jobs)

  -- The jobs that the plan stands for.
  unfoldable pub plan_jobs : List Job
  plan_jobs =
      jobs_if plan.requires_writer_endpoint_switch ((precheck, false) ∷ [])
      ++ ((fence, false)
          ∷ (map (λ (a : SalvageAction). (salvage a, not a.required)) plan.salvage_actions
              ++ ((promote, false)
                  ∷ (repoint, false)
                  ∷ (jobs_if plan.requires_writer_endpoint_switch
                        ((switch_endpoint, false) ∷ (verify_endpoint, false) ∷ [])
                      ++ ((verify, false) ∷ [])))))
