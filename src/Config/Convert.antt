-- ===== src/Config/Convert.antt =====
-- `fileSpec.toDomain` of internal/config/spec.go.
use mha_go.Base.{
  ℕ, ◌+◌, ℤ, pos, ltb_ℤ, true, ltb, Text, codes, is_nil, is_blank, trim_space, List, [], ◌∷◌, ◌++◌,
  length, if◌then◌else◌, Result, ok, err, ◌>>=◌, map_err,
}
use mha_go.Domain.Spec.{
  SecondaryCheckSpec, ControllerSpec, ReplicationSpec, FencingStepSpec, ClusterSpec,
}
use mha_go.Config.{
  FileSpec, FileControllerSpec, FileSecondaryCheckSpec, FileReplicationSpec, FileFencingStepSpec,
}
use mha_go.Config.Parts.{
  ConfigError, fallback, few_nodes, invalid_duration, invalid_step_timeout, mode_of, name_unset,
  nodes_of, positive_or, salvage_of, seconds, semi_sync_of, step_kind_unset, topology_of, value_or,
  with_primary, writer_endpoint_of,
}

-- `time.ParseDuration`, which package time has, is the argument.
module _ (parse_duration : Text → Result Text ℤ) where
  -- `parseDurationDefault`, which is `parseOptionalDuration` where the default is 0.
  unfoldable pub parse_duration_default : Text → ℤ → Result Text ℤ
  unfolding is_blank
  parse_duration_default raw default = if is_blank raw then ok default else parse_duration raw

  abbrev pub duration : Text → Text → ℤ → Result ConfigError ℤ
  duration field raw default = map_err (invalid_duration field) (parse_duration_default raw default)

  unfoldable pub secondary_checks_of :
      List FileSecondaryCheckSpec → Result ConfigError (List SecondaryCheckSpec)
  unfolding parse_duration_default
  secondary_checks_of [] = ok []
  secondary_checks_of (c ∷ l) = do
    timeout ←
        duration (codes "secondary check \"" ++ (c.name ++ codes "\" timeout")) c.timeout
          (seconds 2)
    rest ← secondary_checks_of l
    ok (record { name = c.name; observer_node = c.observer_node; timeout = timeout } ∷ rest)

  unfoldable pub controller_of : FileControllerSpec → Result ConfigError ControllerSpec
  unfolding secondary_checks_of fallback
  controller_of f = do
    ttl ← duration (codes "controller.lease.ttl") f.lease.ttl (seconds 15)
    interval ← duration (codes "controller.monitor.interval") f.monitor.interval (seconds 1)
    reconfirm ←
        duration (codes "controller.monitor.reconfirm_timeout") f.monitor.reconfirm_timeout
          (seconds 3)
    checks ← secondary_checks_of f.secondary_checks
    ok record {
      id = fallback f.id (codes "controller-1");
      lease = record { backend = fallback f.lease.backend (codes "local-memory"); ttl = ttl };
      monitor = record {
        interval = interval;
        failure_threshold = positive_or (pos 3) f.monitor.failure_threshold;
        reconfirm_timeout = reconfirm;
      };
      secondary_checks = checks;
    }

  unfoldable pub replication_of : FileReplicationSpec → Result ConfigError ReplicationSpec
  unfolding mode_of semi_sync_of salvage_of trim_space parse_duration_default
  replication_of f = do
    mode ← mode_of (trim_space f.mode)
    semi_sync ← semi_sync_of (trim_space f.semi_sync.policy)
    semi_sync_timeout ←
        duration (codes "replication.semi_sync.timeout") f.semi_sync.timeout (seconds 5)
    salvage ← salvage_of (trim_space f.salvage.policy)
    salvage_timeout ← duration (codes "replication.salvage.timeout") f.salvage.timeout (seconds 30)
    ok record {
      mode = mode;
      semi_sync = record {
        policy = semi_sync;
        wait_for_replica_count =
            if ltb_ℤ f.semi_sync.wait_for_replica_count (pos 0)
            then pos 0
            else f.semi_sync.wait_for_replica_count;
        timeout = semi_sync_timeout;
      };
      salvage = record { policy = salvage; timeout = salvage_timeout };
    }

  -- The loop over the fencing steps, from the index `i` on.
  unfoldable pub fencing_steps_of :
      ℕ → List FileFencingStepSpec → Result ConfigError (List FencingStepSpec)
  unfolding parse_duration_default trim_space
  fencing_steps_of i [] = ok []
  fencing_steps_of i (s ∷ l) = if is_nil (trim_space s.kind) then err (step_kind_unset i) else (do
    timeout ← map_err (invalid_step_timeout i) (parse_duration_default s.timeout (pos 0))
    rest ← fencing_steps_of (i + 1) l
    ok (
        record {
          kind = trim_space s.kind;
          required = value_or true s.required;
          command = trim_space s.command;
          timeout = timeout;
        }
        ∷ rest))

  unfoldable pub cluster_of : FileSpec → Result ConfigError ClusterSpec
  unfolding topology_of controller_of replication_of fencing_steps_of writer_endpoint_of nodes_of
      with_primary
  cluster_of f = do
    topology ← topology_of f.topology
    controller ← controller_of f.controller
    replication ← replication_of f.replication
    steps ← fencing_steps_of 0 f.fencing.steps
    (if ltb (length f.nodes) 2 then err few_nodes else (do
      nodes ← nodes_of f.nodes
      nodes' ← with_primary nodes
      ok record {
        name = f.name;
        topology = topology;
        controller = controller;
        replication = replication;
        fencing = record { steps = steps };
        writer_endpoint = writer_endpoint_of f.writer_endpoint;
        nodes = nodes';
        hooks = record {
          shell_compat = f.hooks.shell_compat;
          command = trim_space f.hooks.command;
        };
      }))

  -- `toDomain`; the spec it returns beside an error is not looked at.
  unfoldable pub to_domain : FileSpec → Result ConfigError ClusterSpec
  unfolding cluster_of is_blank
  to_domain f = if is_blank f.name then err name_unset else cluster_of f
