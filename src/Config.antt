-- ===== src/Config.antt =====
-- internal/config/spec.go: the configuration file, decoded, and the cluster it describes.
pub mod Parts
pub mod Convert
pub mod Valid
pub mod Nodes
pub mod Cluster
mod Tests
use mha_go.Base.{ℤ, Bool, Text, List, Option}

pub record FileLeaseSpec : Type 0 where
  pub backend : Text
  pub ttl : Text

pub record FileMonitorSpec : Type 0 where
  pub interval : Text
  pub failure_threshold : ℤ
  pub reconfirm_timeout : Text

pub record FileSecondaryCheckSpec : Type 0 where
  pub name : Text
  pub observer_node : Text
  pub timeout : Text

pub record FileControllerSpec : Type 0 where
  pub id : Text
  pub lease : FileLeaseSpec
  pub monitor : FileMonitorSpec
  pub secondary_checks : List FileSecondaryCheckSpec

pub record FileTopologySpec : Type 0 where
  pub kind : Text
  pub single_writer : Option Bool
  pub allow_cascading_replicas : Bool

pub record FileSemiSyncSpec : Type 0 where
  pub policy : Text
  pub wait_for_replica_count : ℤ
  pub timeout : Text

pub record FileSalvageSpec : Type 0 where
  pub policy : Text
  pub timeout : Text

pub record FileReplicationSpec : Type 0 where
  pub mode : Text
  pub semi_sync : FileSemiSyncSpec
  pub salvage : FileSalvageSpec

pub record FileWriterEndpointSpec : Type 0 where
  pub kind : Text
  pub target : Text
  pub command : Text
  pub precheck_command : Text
  pub verify_command : Text

pub record FileFencingStepSpec : Type 0 where
  pub kind : Text
  pub required : Option Bool
  pub command : Text
  pub timeout : Text

pub record FileFencingSpec : Type 0 where
  pub steps : List FileFencingStepSpec

pub record FileHookSpec : Type 0 where
  pub shell_compat : Bool
  pub command : Text

pub record FileSqlSpec : Type 0 where
  pub user : Text
  pub password_ref : Text
  pub replication_user : Text
  pub replication_password_ref : Text
  pub tls_profile : Text

pub record FileSshSpec : Type 0 where
  pub user : Text
  pub port : ℤ
  pub password_ref : Text
  pub private_key_ref : Text
  pub private_key_passphrase_ref : Text
  pub binlog_dir : Text
  pub binlog_index : Text
  pub binlog_prefix : Text
  pub mysql_binlog_path : Text

pub record FileAgentSpec : Type 0 where
  pub address : Text
  pub auth_token : Text

pub record FileNodeSpec : Type 0 where
  pub id : Text
  pub host : Text
  pub port : ℤ
  pub version_series : Text
  pub expected_role : Text
  pub candidate_priority : ℤ
  pub no_master : Bool
  pub ignore_fail : Bool
  pub zone : Text
  pub labels : List (Text × Text)
  pub sql : FileSqlSpec
  pub ssh : Option FileSshSpec
  pub agent : Option FileAgentSpec

pub record FileSpec : Type 0 where
  pub name : Text
  pub topology : FileTopologySpec
  pub controller : FileControllerSpec
  pub replication : FileReplicationSpec
  pub fencing : FileFencingSpec
  pub writer_endpoint : FileWriterEndpointSpec
  pub nodes : List FileNodeSpec
  pub hooks : FileHookSpec
