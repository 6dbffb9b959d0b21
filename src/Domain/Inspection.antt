-- ===== src/Domain/Inspection.antt =====
-- What internal/transport/sql/interfaces.go reads from a server, and two tests that both controllers
-- have on it.
use mha_go.Base.{
  ℤ, pos, eqb_ℤ, Bool, false, ◌&&◌, Text, text_eq, trim_space, equal_fold, List, [], ◌∷◌, Option,
  if◌then◌else◌, find,
}
use mha_go.Base.{codes, ◌++◌, print_int, none, some, Result, ok, err, ◌≡◌, ap}
use mha_go.Base.Errors.{ok-injective}
use mha_go.Domain.Spec.{ClusterSpec, NodeSpec}

pub record ReplicaChannelStatus : Type 0 where
  pub channel_name : Text
  pub source_host : Text
  pub source_port : ℤ
  pub source_uuid : Text
  pub auto_position : Bool
  pub io_thread_running : Bool
  pub sql_thread_running : Bool
  pub retrieved_gtid_set : Text
  pub executed_gtid_set : Text
  pub seconds_behind_source : ℤ
  pub last_io_error : Text
  pub last_sql_error : Text

pub record Inspection : Type 0 where
  pub node_id : Text
  pub address : Text
  pub server_uuid : Text
  pub version : Text
  pub version_comment : Text
  pub version_series : Text
  pub gtid_mode : Text
  pub gtid_executed : Text
  pub read_only : Bool
  pub super_read_only : Bool
  pub semi_sync_source_enabled : Bool
  pub semi_sync_source_operational : Bool
  pub semi_sync_replica_operational : Bool
  pub replica_channels : List ReplicaChannelStatus

-- `nodeSpecByID`
unfoldable pub node_spec_by_id : ClusterSpec → Text → Option NodeSpec
unfolding find text_eq
node_spec_by_id spec id = find (λ (n : NodeSpec). text_eq n.id id) spec.nodes

-- `replicaPointsToNode`, which is also `replicaPointsToCandidate`.
unfoldable pub replica_points_to_node : ReplicaChannelStatus → NodeSpec → Bool
unfolding equal_fold trim_space
replica_points_to_node ch node =
    let host_match = equal_fold (trim_space ch.source_host) (trim_space node.host) in
    if eqb_ℤ ch.source_port (pos 0)
    then host_match
    else host_match && eqb_ℤ ch.source_port node.port

-- Whether the first channel replicates from the node, with auto-position and both threads running.
unfoldable pub follows : NodeSpec → List ReplicaChannelStatus → Bool
unfolding replica_points_to_node
follows source [] = false
follows source (ch ∷ channels) =
    replica_points_to_node ch source
    && (ch.auto_position && (ch.io_thread_running && ch.sql_thread_running))

unfoldable pub host_port_text : Text → ℤ → Text
unfolding print_int
host_port_text host port = host ++ (58 ∷ print_int port)

unfoldable pub no_node_text : Text → Text → Text
no_node_text id role = codes "cluster spec has no node \"" ++ (id ++ (codes "\" for " ++ role))

unfoldable pub inspect_text : Text → Text → Text → Text
inspect_text what id e = codes "inspect " ++ (what ++ (codes " \"" ++ (id ++ (codes "\": " ++ e))))

abbrev pub or_error : Text → Option NodeSpec → Result Text NodeSpec
or_error e none = err e
or_error e (some n) = ok n

pub or_error-some :
    (e : Text) (found : Option NodeSpec) {n : NodeSpec} → or_error e found ≡ ok n → found ≡ some n
or_error-some e none h = cc
or_error-some e (some m) h = ap some (ok-injective h)
