-- ===== src/Domain/Switchover.antt =====
-- The switchover types of internal/domain/types.go. Step names and statuses are strings that only
-- this program writes; they are data types with the values it writes.
use mha_go.Base.{ℕ, Bool, Text, List, Option}
use mha_go.Domain.View.{NodeState}

pub data SwitchStep : Type 0 where
  precheck_writer_endpoint lock_candidate lock_old_primary wait_candidate_catchup : SwitchStep
  promote_candidate repoint_replicas repoint_old_primary : SwitchStep
  switch_writer_endpoint verify_writer_endpoint verify : SwitchStep

pub data SwitchStatus : Type 0 where
  pending skipped : SwitchStatus

pub data SwitchResult : Type 0 where
  skipped completed failed : SwitchResult

pub record SwitchoverStep : Type 0 where
  pub name : SwitchStep
  pub status : SwitchStatus

pub record SwitchoverPlan : Type 0 where
  pub cluster_name : Text
  pub created_at : ℕ
  pub original_primary : NodeState
  pub candidate : NodeState
  pub requires_writer_endpoint_switch : Bool
  pub steps : List SwitchoverStep

pub record SwitchoverStepResult : Type 0 where
  pub name : SwitchStep
  pub status : SwitchResult
  pub message : Text

-- `SwitchoverExecution`, less its times and its copy of the plan.
pub record SwitchoverExecution : Type 0 where
  pub cluster_name : Text
  pub dry_run : Bool
  pub succeeded : Bool
  pub failed_step : Option SwitchStep
  pub step_results : List SwitchoverStepResult
