-- ===== src/Domain/Spec.antt =====
-- The configuration types of internal/domain/types.go.
use mha_go.Base.{ℤ, Bool, true, false, Text, List, Option, is_blank, if◌then◌else◌}

pub data TopologyKind : Type 0 where
  mysql_replication_single_primary : TopologyKind
  group_replication_single_primary : TopologyKind
  group_replication_multi_primary : TopologyKind
  innodb_cluster : TopologyKind

pub data ReplicationMode : Type 0 where
  gtid : ReplicationMode

pub data SemiSyncPolicy : Type 0 where
  unset disabled preferred required : SemiSyncPolicy

pub data SalvagePolicy : Type 0 where
  unset strict if_possible availability_first : SalvagePolicy

pub data NodeRole : Type 0 where
  unset unknown primary replica observer : NodeRole

abbrev pub is_primary : NodeRole → Bool
is_primary NodeRole.primary = true
is_primary _ = false

abbrev pub is_replica : NodeRole → Bool
is_replica NodeRole.replica = true
is_replica _ = false

abbrev pub is_observer : NodeRole → Bool
is_observer NodeRole.observer = true
is_observer _ = false

abbrev pub is_availability_first : SalvagePolicy → Bool
is_availability_first SalvagePolicy.availability_first = true
is_availability_first _ = false

abbrev pub is_if_possible : SalvagePolicy → Bool
is_if_possible SalvagePolicy.if_possible = true
is_if_possible _ = false

-- `policy == SalvageStrict || policy == ""`
abbrev pub is_strict_or_unset : SalvagePolicy → Bool
is_strict_or_unset SalvagePolicy.strict = true
is_strict_or_unset SalvagePolicy.unset = true
is_strict_or_unset _ = false

pub record TopologySpec : Type 0 where
  pub kind : TopologyKind
  pub single_writer : Bool
  pub allow_cascading_replicas : Bool

pub record LeaseSpec : Type 0 where
  pub backend : Text
  pub ttl : ℤ

pub record MonitorSpec : Type 0 where
  pub interval : ℤ
  pub failure_threshold : ℤ
  pub reconfirm_timeout : ℤ

pub record SecondaryCheckSpec : Type 0 where
  pub name : Text
  pub observer_node : Text
  pub timeout : ℤ

pub record ControllerSpec : Type 0 where
  pub id : Text
  pub lease : LeaseSpec
  pub monitor : MonitorSpec
  pub secondary_checks : List SecondaryCheckSpec

pub record SemiSyncSpec : Type 0 where
  pub policy : SemiSyncPolicy
  pub wait_for_replica_count : ℤ
  pub timeout : ℤ

pub record SalvageSpec : Type 0 where
  pub policy : SalvagePolicy
  pub timeout : ℤ

pub record ReplicationSpec : Type 0 where
  pub mode : ReplicationMode
  pub semi_sync : SemiSyncSpec
  pub salvage : SalvageSpec

pub record WriterEndpointSpec : Type 0 where
  pub kind : Text
  pub target : Text
  pub command : Text
  pub precheck_command : Text
  pub verify_command : Text

pub record FencingStepSpec : Type 0 where
  pub kind : Text
  pub required : Bool
  pub command : Text
  pub timeout : ℤ

pub record FencingSpec : Type 0 where
  pub steps : List FencingStepSpec

pub record HookSpec : Type 0 where
  pub shell_compat : Bool
  pub command : Text

pub record SqlTargetSpec : Type 0 where
  pub user : Text
  pub password_ref : Text
  pub replication_user : Text
  pub replication_password_ref : Text
  pub tls_profile : Text

pub record SshTargetSpec : Type 0 where
  pub user : Text
  pub port : ℤ
  pub password_ref : Text
  pub private_key_ref : Text
  pub private_key_passphrase_ref : Text
  pub binlog_dir : Text
  pub binlog_index : Text
  pub binlog_prefix : Text
  pub mysql_binlog_path : Text

pub record AgentTargetSpec : Type 0 where
  pub address : Text
  pub auth_token : Text

pub record NodeSpec : Type 0 where
  pub id : Text
  pub host : Text
  pub port : ℤ
  pub version_series : Text
  pub expected_role : NodeRole
  pub candidate_priority : ℤ
  pub no_master : Bool
  pub ignore_fail : Bool
  pub zone : Text
  pub labels : List (Text × Text)
  pub sql : SqlTargetSpec
  pub ssh : Option SshTargetSpec
  pub agent : Option AgentTargetSpec

pub record ClusterSpec : Type 0 where
  pub name : Text
  pub topology : TopologySpec
  pub controller : ControllerSpec
  pub replication : ReplicationSpec
  pub fencing : FencingSpec
  pub writer_endpoint : WriterEndpointSpec
  pub nodes : List NodeSpec
  pub hooks : HookSpec

-- `SQLTargetSpec.ReplicationUserOrDefault`
pub replication_user_or_default : SqlTargetSpec → Text
replication_user_or_default s = if is_blank s.replication_user then s.user else s.replication_user

-- `SQLTargetSpec.ReplicationPasswordRefOrDefault`
pub replication_password_ref_or_default : SqlTargetSpec → Text
replication_password_ref_or_default s =
    if is_blank s.replication_password_ref then s.password_ref else s.replication_password_ref
