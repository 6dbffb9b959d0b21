-- ===== src/Switchover/Tests.antt =====
-- A switchover of the cluster of Domain/Examples.antt with a primary that is alive.
use mha_go.Base.{
  pos, true, false, Text, codes, List, [], ◌∷◌, ◌++◌, none, some, Result, ok, ◌≡◌, refl, text_eq,
  text_lt, is_blank, if◌then◌else◌, find, keep, any,
}
use mha_go.Domain.Spec.{NodeSpec, NodeRole}
use mha_go.Domain.View.{NodeState, ClusterView, primary_node}
use mha_go.Domain.Switchover.{SwitchoverPlan}
use mha_go.Domain.Inspection.{Inspection, ReplicaChannelStatus}
use mha_go.Domain.Examples.{spec, view, replica, replica_state}
use mha_go.Effects.{Env}
use mha_go.Gtid.Sets.{remaining}
use mha_go.Topology.Assessment.{
  errors, assess_replication, assess_nodes, assess_primary, assess_semi_sync, assess_replica,
  assess_source, spec_node_role, spec_node_version_series,
}
use mha_go.Effects.Updates.{updates}
use mha_go.Gtid.Sets.{GtidSet}
use mha_go.Gtid.Sets.Laws.{member}
use mha_go.Gtid.Interval.Cover.{covers}
use mha_go.Gtid.Parse.{parse}
use mha_go.Gtid.Print.{subtract_texts}
use mha_go.Switchover.Plan.{writable_candidate_check, plan_of, plan_for}
use mha_go.Switchover.Build.{build_plan}
use mha_go.Switchover.Closed.{status_of, switchover_build-updates}
use mha_go.Switchover.Executor.{SwitchCall, execute_plan}
use mha_go.Switchover.Leased.{IsProtected, switchover-IsGuarded}
use mha_go.Switchover.Lossless.{plan_for-keeps}
use mha_go.Switchover.Order.{IsExecuted, switchover_ordered}
use mha_go.Switchover.Locked.{IsStaged, execute_plan-IsStaged}
use mha_go.Switchover.Verify.{verify_post_switchover}
use mha_go.Switchover.Verified.{IsSwitchedOver, verify_post_switchover-IsSwitchedOver}

abbrev primary : NodeState
primary = record (replica (codes "db1") (codes "u1:1-7")) {
  role = NodeRole.primary;
  read_only = false;
  super_read_only = false;
  replica = none;
}

-- A replica that takes writes from administrators.
abbrev candidate : NodeState
candidate = record (replica (codes "db2") (codes "u1:1-7")) {
  super_read_only = false;
  replica = some (record replica_state { io_thread_running = true });
}

abbrev healthy : ClusterView
healthy = record view { nodes = primary ∷ candidate ∷ [] }

abbrev chosen : ClusterView → Result Text NodeState
chosen v = ok candidate

abbrev plan : SwitchoverPlan
plan = plan_of spec primary candidate 0

planned : plan_for spec chosen 0 healthy ≡ ok plan
unfolding plan_for writable_candidate_check subtract_texts remaining errors assess_replication
    assess_nodes assess_primary assess_semi_sync assess_replica assess_source spec_node_role
    spec_node_version_series primary_node text_eq is_blank any keep find text_lt
planned = refl

abbrev all : GtidSet
all = (codes "u1", record { start = 1; end = 7 } ∷ []) ∷ []

parsed : parse (codes "u1:1-7") ≡ ok all
unfolding parse text_eq
parsed = refl

seventh : member all (codes "u1") 7 ≡ true
unfolding member covers text_eq
seventh = refl

plan_for-keeps_example : member all (codes "u1") 7 ≡ true
unfolding plan_of
plan_for-keeps_example =
    plan_for-keeps spec chosen 0 healthy (codes "u1") 7 planned refl parsed parsed seventh

-- An environment in which nothing fails.
abbrev sunny : Env SwitchCall
sunny = record { error_of = λ t e. none; run_id = λ t. codes "run" }

switchover_ordered_example : IsExecuted sunny plan [] (execute_plan sunny spec plan false [])
switchover_ordered_example = switchover_ordered sunny spec plan false [] refl refl

execute_plan-IsStaged_example : IsStaged sunny [] (execute_plan sunny spec plan false []).trace
execute_plan-IsStaged_example = execute_plan-IsStaged sunny spec chosen 0 healthy false [] planned

switchover-IsGuarded_example :
    IsProtected sunny spec plan false [] (execute_plan sunny spec plan false [])
switchover-IsGuarded_example = switchover-IsGuarded sunny spec plan false []

switchover_build-updates_example :
    updates (build_plan sunny spec (ok healthy) chosen 0 []).1
    ≡ updates {C = SwitchCall} []
      ++ ((codes "run", status_of (build_plan sunny spec (ok healthy) chosen 0 []).0) ∷ [])
switchover_build-updates_example = switchover_build-updates sunny spec (ok healthy) chosen 0 [] refl

abbrev server : List ReplicaChannelStatus → Inspection
server channels = record {
  node_id = [];
  address = [];
  server_uuid = [];
  version = [];
  version_comment = [];
  version_series = [];
  gtid_mode = [];
  gtid_executed = [];
  read_only = false;
  super_read_only = false;
  semi_sync_source_enabled = false;
  semi_sync_source_operational = false;
  semi_sync_replica_operational = false;
  replica_channels = channels;
}

abbrev channel : ReplicaChannelStatus
channel = record {
  channel_name = [];
  source_host = codes "db2";
  source_port = pos 3306;
  source_uuid = [];
  auto_position = true;
  io_thread_running = true;
  sql_thread_running = true;
  retrieved_gtid_set = [];
  executed_gtid_set = [];
  seconds_behind_source = pos 0;
  last_io_error = [];
  last_sql_error = [];
}

abbrev follower_server : Inspection
follower_server = record (server (channel ∷ [])) { read_only = true }

-- The servers behind the switchover.
abbrev inspect : NodeSpec → Result Text Inspection
inspect n = ok (if text_eq n.id (codes "db2") then server [] else follower_server)

verified : verify_post_switchover inspect plan spec ≡ ok tt
unfolding verify_post_switchover plan_of text_eq
verified = refl

verify_post_switchover-IsSwitchedOver_example :
    (c : NodeSpec) × (original : NodeSpec) × (new : Inspection) × (old : Inspection)
    × IsSwitchedOver inspect spec plan c original new old
verify_post_switchover-IsSwitchedOver_example =
    verify_post_switchover-IsSwitchedOver inspect spec plan verified
