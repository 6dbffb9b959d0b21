-- ===== src/Domain/View.antt =====
-- The discovered state of internal/domain/types.go, and the lookups on it.
use mha_go.Base.{ℕ, ℤ, Bool, true, false, Text, List, Option, text_eq, keep, find}
use mha_go.Domain.Spec.{TopologyKind, NodeRole, is_replica}

pub data NodeHealth : Type 0 where
  unknown alive suspect dead : NodeHealth

abbrev pub is_alive : NodeHealth → Bool
is_alive NodeHealth.alive = true
is_alive _ = false

abbrev pub is_suspect : NodeHealth → Bool
is_suspect NodeHealth.suspect = true
is_suspect _ = false

abbrev pub is_dead : NodeHealth → Bool
is_dead NodeHealth.dead = true
is_dead _ = false

pub data EventSeverity : Type 0 where
  info warn error : EventSeverity

abbrev pub is_error : EventSeverity → Bool
is_error EventSeverity.error = true
is_error _ = false

abbrev pub is_warn : EventSeverity → Bool
is_warn EventSeverity.warn = true
is_warn _ = false

pub record CapabilitySet : Type 0 where
  pub has_gtid : Bool
  pub has_auto_position : Bool
  pub has_super_read_only : Bool
  pub has_semi_sync : Bool
  pub has_perf_schema_replication : Bool
  pub has_clone_plugin : Bool
  pub supports_replication_channels : Bool
  pub supports_dynamic_privileges : Bool
  pub supports_read_only_fence : Bool

pub record ReplicaState : Type 0 where
  pub source_id : Text
  pub source_uuid : Text
  pub source_host : Text
  pub source_port : ℤ
  pub channel_name : Text
  pub auto_position : Bool
  pub gtid_executed : Text
  pub gtid_retrieved : Text
  pub seconds_behind_source : ℤ
  pub io_thread_running : Bool
  pub sql_thread_running : Bool
  pub semi_sync_replica : Bool
  pub last_io_error : Text
  pub last_sql_error : Text

pub record NodeState : Type 0 where
  pub id : Text
  pub address : Text
  pub server_uuid : Text
  pub version : Text
  pub version_series : Text
  pub role : NodeRole
  pub health : NodeHealth
  pub candidate_priority : ℤ
  pub no_master : Bool
  pub ignore_fail : Bool
  pub capabilities : CapabilitySet
  pub gtid_executed : Text
  pub read_only : Bool
  pub super_read_only : Bool
  pub semi_sync_source : Bool
  pub replica : Option ReplicaState
  pub labels : List (Text × Text)
  pub last_error : Text

pub record ClusterView : Type 0 where
  pub cluster_name : Text
  pub topology_kind : TopologyKind
  pub collected_at : ℕ
  pub primary_id : Text
  pub nodes : List NodeState
  pub warnings : List Text

-- `ClusterView.PrimaryNode`; the pair `(nil, false)` is `none`.
unfoldable pub primary_node : ClusterView → Option NodeState
unfolding find
primary_node v = find (λ n. text_eq n.id v.primary_id) v.nodes

-- `ClusterView.ReplicaNodes`
unfoldable pub replica_nodes : ClusterView → List NodeState
unfolding keep
replica_nodes v = keep (λ n. is_replica n.role) v.nodes
