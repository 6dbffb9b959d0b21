-- ===== src/Domain/Plan.antt =====
-- The plans of internal/domain/types.go. Step names, step statuses and salvage kinds are strings
-- that only this program writes; they are data types with the values it writes.
use mha_go.Base.{ℕ, ℤ, Bool, Text, List, Option}
use mha_go.Domain.Spec.{SalvagePolicy}
use mha_go.Domain.View.{NodeState}

pub data SalvageKind : Type 0 where
  recover_from_old_primary : SalvageKind
  recover_from_replica : SalvageKind
  recover_from_old_primary_binlog : SalvageKind

pub record RecoveryGap : Type 0 where
  pub source_node_id : Text
  pub missing_gtid_set : Text
  pub missing_gtid_known : Bool

pub record SalvageAction : Type 0 where
  pub kind : SalvageKind
  pub donor_node_id : Text
  pub target_node_id : Text
  pub missing_gtid_set : Text
  pub required : Bool
  pub reason : Text

-- `recover k` stands for the names with the prefix "recover-from-".
pub data StepName : Type 0 where
  acquire_lease confirm_primary_dead precheck_writer_endpoint fence_old_primary : StepName
  recover : SalvageKind → StepName
  promote_candidate repoint_replicas switch_writer_endpoint verify_writer_endpoint : StepName
  verify_cluster : StepName

pub data StepStatus : Type 0 where
  pending completed blocked : StepStatus

pub record FailoverStep : Type 0 where
  pub name : StepName
  pub status : StepStatus
  pub blocking : Bool
  pub required : Bool
  pub reason : Text

pub record FailoverPlan : Type 0 where
  pub cluster_name : Text
  pub created_at : ℕ
  pub old_primary : NodeState
  pub candidate : NodeState
  pub lease_key : Text
  pub lease_owner : Text
  pub primary_failure_confirmed : Bool
  pub primary_failure_reason : Text
  pub promote_readiness_confirmed : Bool
  pub promote_readiness_reasons : List Text
  pub execution_permitted : Bool
  pub blocking_reasons : List Text
  pub assessment_errors : ℕ
  pub assessment_warnings : ℕ
  pub candidate_freshness_score : ℤ
  pub candidate_most_advanced : Bool
  pub salvage_policy : SalvagePolicy
  pub should_attempt_salvage : Bool
  pub missing_from_primary_known : Bool
  pub missing_from_primary_gtid_set : Text
  pub recovery_gaps : List RecoveryGap
  pub salvage_actions : List SalvageAction
  pub suggested_donor_ids : List Text
  pub steps : List FailoverStep
  pub requires_fencing : Bool
  pub requires_writer_endpoint_switch : Bool
  -- A nil slice is `none`.
  pub repoint_replica_ids : Option (List Text)
  pub skipped_replica_ids : List Text
