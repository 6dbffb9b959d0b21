-- ===== src/Failover/Actions.antt =====
-- `executeStep` of internal/controller/failover/executor.go, and the methods of `ActionRunner`
-- (internal/controller/failover/actions.go) that it calls.
use mha_go.Base.{
  ℕ, ◌+◌, Bool, true, false, Text, codes, List, [], ◌++◌, Option, none, some, is_blank,
  if◌then◌else◌, get_elem?,
}
use mha_go.Domain.Plan.{
  SalvageKind, recover_from_old_primary, recover_from_replica, recover_from_old_primary_binlog,
  SalvageAction, StepName, acquire_lease, confirm_primary_dead, precheck_writer_endpoint,
  fence_old_primary, recover, promote_candidate, repoint_replicas, switch_writer_endpoint,
  verify_writer_endpoint, verify_cluster, FailoverPlan,
}
use mha_go.Effects.{Effect, call, Env, then_do}

pub data Call : Type 0 where
  precheck fence promote repoint switch_endpoint verify_endpoint verify : Call
  salvage : SalvageAction → Call

abbrev pub Trace : Type 0
Trace = List (Effect Call)

pub data ResultStatus : Type 0 where
  skipped blocked completed warned failed : ResultStatus

-- `FailoverStepResult`
pub record StepResult : Type 0 where
  pub name : StepName
  pub status : ResultStatus
  pub message : Text

-- The variables of the loop: the fields of `FailoverExecution` that it sets, `salvageIndex`, and
-- what has been done so far.
pub record Progress : Type 0 where
  pub salvage_index : ℕ
  pub blocked : Bool
  pub failed_step : Option StepName
  pub results : List StepResult
  pub trace : Trace

unfoldable pub kind_text : SalvageKind → Text
kind_text recover_from_old_primary = codes "recover-from-old-primary"
kind_text recover_from_replica = codes "recover-from-replica"
kind_text recover_from_old_primary_binlog = codes "recover-from-old-primary-binlog"

unfoldable pub step_text : StepName → Text
unfolding kind_text
step_text acquire_lease = codes "acquire-lease"
step_text confirm_primary_dead = codes "confirm-primary-dead"
step_text precheck_writer_endpoint = codes "precheck-writer-endpoint"
step_text fence_old_primary = codes "fence-old-primary"
step_text (recover k) = kind_text k
step_text promote_candidate = codes "promote-candidate"
step_text repoint_replicas = codes "repoint-replicas"
step_text switch_writer_endpoint = codes "switch-writer-endpoint"
step_text verify_writer_endpoint = codes "verify-writer-endpoint"
step_text verify_cluster = codes "verify-cluster"

-- `firstNonEmpty(reason, "step is blocked")`
unfoldable pub first_non_empty : Text → Text → Text
first_non_empty a b = if is_blank a then (if is_blank b then [] else b) else a

-- `strings.HasPrefix(step.Name, "recover-from-")`
abbrev pub is_recover : StepName → Bool
is_recover (recover k) = true
is_recover _ = false

unfoldable pub no_action_text : StepName → Text
no_action_text name =
    codes "no salvage action available for step \"" ++ (step_text name ++ codes "\"")

module _ (env : Env Call) where
  -- One call of the runner: its error and the trace behind it.
  unfoldable pub invoke : Call → Trace → Option Text × Trace
  invoke c t = (env.error_of t (call c), then_do t (call c))

  unfoldable pub salvage_call :
      Option SalvageAction → StepName → ℕ → Trace → Option Text × ℕ × Trace
  unfolding invoke
  salvage_call none name i t = (some (no_action_text name), i, t)
  salvage_call (some a) name i t = let (e, t') = invoke (salvage a) t in (e, i + 1, t')

  abbrev pub plain_call : Call → ℕ → Trace → Option Text × ℕ × Trace
  plain_call c i t = let (e, t') = invoke c t in (e, i, t')

  -- `executeStep`: the step's error, the new `salvageIndex` and the trace.
  unfoldable pub execute_step : FailoverPlan → StepName → ℕ → Trace → Option Text × ℕ × Trace
  unfolding salvage_call
  execute_step plan precheck_writer_endpoint i t = plain_call precheck i t
  execute_step plan fence_old_primary i t = plain_call fence i t
  execute_step plan (recover k) i t =
      salvage_call (get_elem? plan.salvage_actions i) (recover k) i t
  execute_step plan promote_candidate i t = plain_call promote i t
  execute_step plan repoint_replicas i t = plain_call repoint i t
  execute_step plan switch_writer_endpoint i t = plain_call switch_endpoint i t
  execute_step plan verify_writer_endpoint i t = plain_call verify_endpoint i t
  execute_step plan verify_cluster i t = plain_call verify i t
  execute_step plan acquire_lease i t = (none, i, t)
  execute_step plan confirm_primary_dead i t = (none, i, t)
