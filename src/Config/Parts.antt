-- ===== src/Config/Parts.antt =====
-- The parts of `fileSpec.toDomain` in internal/config/spec.go that read no duration: the policies, the
-- roles and the nodes.
use mha_go.Base.{
  ℕ, ◌+◌, ◌*◌, ℤ, pos, leb_ℤ, eqb_ℤ, Bool, true, false, not, ◌||◌, ltb, ◌==◌, Text, codes, text_eq,
  is_nil, is_blank, trim_space, List, [], ◌∷◌, Option, none, some, if◌then◌else◌, Result, ok, err,
  ◌>>=◌, map_err,
}
use mha_go.Domain.Spec.{
  TopologyKind, ReplicationMode, SemiSyncPolicy, SalvagePolicy, NodeRole, is_primary, TopologySpec,
  WriterEndpointSpec, NodeSpec, SshTargetSpec, AgentTargetSpec,
}
use mha_go.Capability.{VersionError, normalize_version_series}
use mha_go.Config.{
  FileTopologySpec, FileWriterEndpointSpec, FileNodeSpec, FileSshSpec, FileAgentSpec,
}

pub data ConfigError : Type 0 where
  name_unset few_nodes node_id_unset many_primaries : ConfigError
  topology_renamed topology_reserved topology_unsupported mode_unsupported : Text → ConfigError
  invalid_semi_sync invalid_salvage host_unset credentials_apart : Text → ConfigError
  invalid_duration : Text → Text → ConfigError
  invalid_step_timeout : ℕ → Text → ConfigError
  step_kind_unset : ℕ → ConfigError
  invalid_version : Text → VersionError → ConfigError
  invalid_role : Text → Text → ConfigError

-- `fallback`
unfoldable pub fallback : Text → Text → Text
unfolding is_blank
fallback value default_value = if is_blank value then default_value else value

abbrev pub value_or : Bool → Option Bool → Bool
value_or default none = default
value_or default (some b) = b

-- `if n <= 0 { n = default }`
abbrev pub positive_or : ℤ → ℤ → ℤ
positive_or default n = if leb_ℤ n (pos 0) then default else n

abbrev pub nonzero_or : ℤ → ℤ → ℤ
nonzero_or default n = if eqb_ℤ n (pos 0) then default else n

-- Nanoseconds.
abbrev pub seconds : ℕ → ℤ
seconds n = pos (n * 1000000000)

unfoldable pub topology_of : FileTopologySpec → Result ConfigError TopologySpec
unfolding trim_space text_eq
topology_of f =
    let kind = trim_space f.kind in
    if is_nil kind || text_eq kind (codes "mysql-replication-single-primary")
    then ok record {
      kind = TopologyKind.mysql_replication_single_primary;
      single_writer = value_or true f.single_writer;
      allow_cascading_replicas = f.allow_cascading_replicas;
    }
    else if text_eq kind (codes "async-single-primary")
    then err (topology_renamed kind)
    else if text_eq kind (codes "group-replication-single-primary")
        || (text_eq kind (codes "group-replication-multi-primary")
            || text_eq kind (codes "innodb-cluster"))
    then err (topology_reserved kind)
    else err (topology_unsupported kind)

unfoldable pub semi_sync_of : Text → Result ConfigError SemiSyncPolicy
unfolding text_eq
semi_sync_of policy =
    if is_nil policy || text_eq policy (codes "preferred")
    then ok SemiSyncPolicy.preferred
    else if text_eq policy (codes "disabled")
    then ok SemiSyncPolicy.disabled
    else if text_eq policy (codes "required")
    then ok SemiSyncPolicy.required
    else err (invalid_semi_sync policy)

unfoldable pub salvage_of : Text → Result ConfigError SalvagePolicy
unfolding text_eq
salvage_of policy =
    if is_nil policy || text_eq policy (codes "salvage-if-possible")
    then ok SalvagePolicy.if_possible
    else if text_eq policy (codes "strict")
    then ok SalvagePolicy.strict
    else if text_eq policy (codes "availability-first")
    then ok SalvagePolicy.availability_first
    else err (invalid_salvage policy)

unfoldable pub mode_of : Text → Result ConfigError ReplicationMode
unfolding text_eq
mode_of mode =
    if is_nil mode || text_eq mode (codes "gtid")
    then ok ReplicationMode.gtid
    else err (mode_unsupported mode)

unfoldable pub role_of : Text → Text → Result ConfigError NodeRole
unfolding text_eq
role_of id role =
    if is_nil role || text_eq role (codes "replica")
    then ok NodeRole.replica
    else if text_eq role (codes "primary")
    then ok NodeRole.primary
    else if text_eq role (codes "observer")
    then ok NodeRole.observer
    else err (invalid_role id role)

unfoldable pub writer_endpoint_of : FileWriterEndpointSpec → WriterEndpointSpec
unfolding fallback trim_space
writer_endpoint_of f = record {
  kind = fallback f.kind (codes "none");
  target = f.target;
  command = trim_space f.command;
  precheck_command = trim_space f.precheck_command;
  verify_command = trim_space f.verify_command;
}

abbrev pub ssh_of : Option FileSshSpec → Option SshTargetSpec
ssh_of none = none
ssh_of (some f) = some record {
  user = f.user;
  port = nonzero_or (pos 22) f.port;
  password_ref = f.password_ref;
  private_key_ref = f.private_key_ref;
  private_key_passphrase_ref = f.private_key_passphrase_ref;
  binlog_dir = f.binlog_dir;
  binlog_index = f.binlog_index;
  binlog_prefix = f.binlog_prefix;
  mysql_binlog_path = f.mysql_binlog_path;
}

abbrev pub agent_of : Option FileAgentSpec → Option AgentTargetSpec
agent_of none = none
agent_of (some f) = some record { address = f.address; auth_token = f.auth_token }

abbrev pub node_with : FileNodeSpec → Text → NodeRole → NodeSpec
node_with n series role = record {
  id = n.id;
  host = n.host;
  port = nonzero_or (pos 3306) n.port;
  version_series = series;
  expected_role = role;
  candidate_priority = n.candidate_priority;
  no_master = n.no_master;
  ignore_fail = n.ignore_fail;
  zone = n.zone;
  labels = n.labels;
  sql = record {
    user = n.sql.user;
    password_ref = n.sql.password_ref;
    replication_user = n.sql.replication_user;
    replication_password_ref = n.sql.replication_password_ref;
    tls_profile = n.sql.tls_profile;
  };
  ssh = ssh_of n.ssh;
  agent = agent_of n.agent;
}

-- `a != b` on Booleans.
abbrev pub differ : Bool → Bool → Bool
differ true b = not b
differ false b = b

-- The body of the loop over the nodes.
unfoldable pub node_of : FileNodeSpec → Result ConfigError NodeSpec
unfolding normalize_version_series role_of is_blank trim_space
node_of n = do
  series ← map_err (invalid_version n.id) (normalize_version_series n.version_series)
  role ← role_of n.id (trim_space n.expected_role)
  (if is_blank n.id
      then err node_id_unset
      else if is_blank n.host
      then err (host_unset n.id)
      else if differ (is_blank n.sql.replication_user) (is_blank n.sql.replication_password_ref)
      then err (credentials_apart n.id)
      else ok (node_with n series role))

-- The loop over the nodes.
unfoldable pub nodes_of : List FileNodeSpec → Result ConfigError (List NodeSpec)
unfolding node_of
nodes_of [] = ok []
nodes_of (n ∷ l) = do node ← node_of n; rest ← nodes_of l; ok (node ∷ rest)

-- `primaryCount`
unfoldable pub primary_count : List NodeSpec → ℕ
primary_count [] = 0
primary_count (n ∷ l) =
    let rest = primary_count l in if is_primary n.expected_role then 1 + rest else rest

abbrev pub first_primary : List NodeSpec → List NodeSpec
first_primary [] = []
first_primary (n ∷ l) = record n { expected_role = NodeRole.primary } ∷ l

-- What follows the loop over the nodes.
unfoldable pub with_primary : List NodeSpec → Result ConfigError (List NodeSpec)
unfolding primary_count
with_primary nodes =
    if ltb 1 (primary_count nodes)
    then err many_primaries
    else ok (if primary_count nodes == 0 then first_primary nodes else nodes)
