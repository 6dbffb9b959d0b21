-- ===== src/Domain/Examples.antt =====
-- A small cluster that the tests of several modules run on: a dead primary and two replicas.
use mha_go.Base.{pos, true, false, Text, codes, [], ◌∷◌, none, some}
use mha_go.Domain.Spec.{
  ClusterSpec, NodeSpec, TopologyKind, ReplicationMode, SemiSyncPolicy, SalvagePolicy, NodeRole,
}
use mha_go.Domain.View.{ClusterView, NodeState, NodeHealth, ReplicaState, CapabilitySet}

abbrev pub node_spec : Text → NodeRole → NodeSpec
node_spec id role = record {
  id = id;
  host = id;
  port = pos 3306;
  version_series = codes "8.4";
  expected_role = role;
  candidate_priority = pos 0;
  no_master = false;
  ignore_fail = false;
  zone = [];
  labels = [];
  sql = record {
    user = codes "mha";
    password_ref = [];
    replication_user = [];
    replication_password_ref = [];
    tls_profile = [];
  };
  ssh = none;
  agent = none;
}

abbrev pub spec : ClusterSpec
spec = record {
  name = codes "app";
  topology = record {
    kind = TopologyKind.mysql_replication_single_primary;
    single_writer = true;
    allow_cascading_replicas = false;
  };
  controller = record {
    id = codes "ctl1";
    lease = record { backend = codes "local"; ttl = pos 15 };
    monitor = record { interval = pos 1; failure_threshold = pos 3; reconfirm_timeout = pos 3 };
    secondary_checks = [];
  };
  replication = record {
    mode = ReplicationMode.gtid;
    semi_sync = record {
      policy = SemiSyncPolicy.disabled;
      wait_for_replica_count = pos 0;
      timeout = pos 0;
    };
    salvage = record { policy = SalvagePolicy.strict; timeout = pos 0 };
  };
  fencing = record { steps = [] };
  writer_endpoint = record {
    kind = codes "vip";
    target = codes "vip";
    command = codes "move-vip";
    precheck_command = [];
    verify_command = [];
  };
  nodes =
      node_spec (codes "db1") NodeRole.primary
      ∷ node_spec (codes "db2") NodeRole.replica
      ∷ node_spec (codes "db3") NodeRole.replica
      ∷ [];
  hooks = record { shell_compat = false; command = [] };
}

abbrev pub capabilities : CapabilitySet
capabilities = record {
  has_gtid = true;
  has_auto_position = true;
  has_super_read_only = true;
  has_semi_sync = true;
  has_perf_schema_replication = true;
  has_clone_plugin = false;
  supports_replication_channels = true;
  supports_dynamic_privileges = true;
  supports_read_only_fence = true;
}

abbrev pub replica_state : ReplicaState
replica_state = record {
  source_id = codes "db1";
  source_uuid = [];
  source_host = codes "db1";
  source_port = pos 3306;
  channel_name = [];
  auto_position = true;
  gtid_executed = [];
  gtid_retrieved = [];
  seconds_behind_source = pos 0;
  io_thread_running = false;
  sql_thread_running = true;
  semi_sync_replica = false;
  last_io_error = [];
  last_sql_error = [];
}

abbrev pub replica : Text → Text → NodeState
replica id gtid = record {
  id = id;
  address = id;
  server_uuid = id;
  version = codes "8.4.0";
  version_series = codes "8.4";
  role = NodeRole.replica;
  health = NodeHealth.alive;
  candidate_priority = pos 0;
  no_master = false;
  ignore_fail = false;
  capabilities = capabilities;
  gtid_executed = gtid;
  read_only = true;
  super_read_only = true;
  semi_sync_source = false;
  replica = some replica_state;
  labels = [];
  last_error = [];
}

-- The dead primary, whose GTID set is known from before.
abbrev pub dead_primary : NodeState
dead_primary = record (replica (codes "db1") (codes "u1:1-5")) {
  role = NodeRole.primary;
  health = NodeHealth.dead;
  read_only = false;
  super_read_only = false;
  replica = none;
}

abbrev pub candidate : NodeState
candidate = replica (codes "db2") (codes "u1:1-7")

-- A replica behind the candidate.
abbrev pub follower : NodeState
follower = replica (codes "db3") (codes "u1:1-6")

abbrev pub view : ClusterView
view = record {
  cluster_name = codes "app";
  topology_kind = TopologyKind.mysql_replication_single_primary;
  collected_at = 0;
  primary_id = codes "db1";
  nodes = dead_primary ∷ candidate ∷ follower ∷ [];
  warnings = [];
}
