-- ===== src/Config/Tests.antt =====
-- A configuration file with two nodes and no other setting.
use mha_go.Base.{
  pos, true, false, Text, codes, [], ◌∷◌, none, Result, ok, err, ℤ, ◌≡◌, refl, text_eq, to_lower,
}
use mha_go.Domain.Spec.{
  ClusterSpec, TopologyKind, ReplicationMode, SemiSyncPolicy, SalvagePolicy, NodeRole,
}
use mha_go.Config.{FileSpec, FileNodeSpec}
use mha_go.Config.Parts.{node_with, seconds}
use mha_go.Config.Convert.{to_domain}
use mha_go.Config.Valid.{IsCluster}
use mha_go.Config.Cluster.{to_domain-IsCluster}

-- A reader of durations that knows none.
abbrev no_duration : Text → Result Text ℤ
no_duration t = err t

abbrev file_node : Text → Text → FileNodeSpec
file_node id role = record {
  id = id;
  host = codes "db";
  port = pos 0;
  version_series = codes "8.4.2";
  expected_role = role;
  candidate_priority = pos 0;
  no_master = false;
  ignore_fail = false;
  zone = [];
  labels = [];
  sql = record {
    user = [];
    password_ref = [];
    replication_user = [];
    replication_password_ref = [];
    tls_profile = [];
  };
  ssh = none;
  agent = none;
}

abbrev file : FileSpec
file = record {
  name = codes "orders";
  topology = record { kind = []; single_writer = none; allow_cascading_replicas = false };
  controller = record {
    id = [];
    lease = record { backend = []; ttl = [] };
    monitor = record { interval = []; failure_threshold = pos 0; reconfirm_timeout = [] };
    secondary_checks = [];
  };
  replication = record {
    mode = codes "gtid";
    semi_sync = record { policy = []; wait_for_replica_count = pos 1; timeout = [] };
    salvage = record { policy = codes "strict"; timeout = [] };
  };
  fencing = record {
    steps = record { kind = codes "read-only"; required = none; command = []; timeout = [] } ∷ [];
  };
  writer_endpoint = record {
    kind = [];
    target = [];
    command = [];
    precheck_command = [];
    verify_command = [];
  };
  nodes = file_node (codes "db1") (codes "primary") ∷ file_node (codes "db2") [] ∷ [];
  hooks = record { shell_compat = false; command = [] };
}

abbrev cluster : ClusterSpec
cluster = record {
  name = codes "orders";
  topology = record {
    kind = TopologyKind.mysql_replication_single_primary;
    single_writer = true;
    allow_cascading_replicas = false;
  };
  controller = record {
    id = codes "controller-1";
    lease = record { backend = codes "local-memory"; ttl = seconds 15 };
    monitor = record {
      interval = seconds 1;
      failure_threshold = pos 3;
      reconfirm_timeout = seconds 3;
    };
    secondary_checks = [];
  };
  replication = record {
    mode = ReplicationMode.gtid;
    semi_sync = record {
      policy = SemiSyncPolicy.preferred;
      wait_for_replica_count = pos 1;
      timeout = seconds 5;
    };
    salvage = record { policy = SalvagePolicy.strict; timeout = seconds 30 };
  };
  fencing = record {
    steps =
        record { kind = codes "read-only"; required = true; command = []; timeout = pos 0 } ∷ [];
  };
  writer_endpoint = record {
    kind = codes "none";
    target = [];
    command = [];
    precheck_command = [];
    verify_command = [];
  };
  nodes =
      node_with (file_node (codes "db1") (codes "primary")) (codes "8.4") NodeRole.primary
      ∷ node_with (file_node (codes "db2") []) (codes "8.4") NodeRole.replica
      ∷ [];
  hooks = record { shell_compat = false; command = [] };
}

accepted : to_domain no_duration file ≡ ok cluster
unfolding to_domain text_eq to_lower
accepted = refl

to_domain-IsCluster_example : IsCluster cluster
to_domain-IsCluster_example = to_domain-IsCluster no_duration file accepted
