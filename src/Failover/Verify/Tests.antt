-- ===== src/Failover/Verify/Tests.antt =====
-- The cluster of Domain/Examples.antt behind its failover, and the planning of it.
use mha_go.Base.{
  pos, true, false, codes, List, [], ◌∷◌, ◌++◌, none, Result, ok, Text, text_eq, ◌≡◌, refl,
  if◌then◌else◌,
}
use mha_go.Domain.Spec.{NodeSpec}
use mha_go.Domain.View.{NodeState, ClusterView}
use mha_go.Domain.Inspection.{Inspection, ReplicaChannelStatus}
use mha_go.Domain.Examples.{spec, view, dead_primary, candidate}
use mha_go.Domain.Plan.{FailoverPlan}
use mha_go.Effects.{Env}
use mha_go.Effects.Updates.{updates}
use mha_go.Failover.Plan.{make_plan, plan_without_steps, skipped_replica_ids, node_state_by_id}
use mha_go.Failover.Actions.{Call}
use mha_go.Failover.Build.{build_plan}
use mha_go.Failover.Build.Closed.{status_of, build_plan-updates}
use mha_go.Failover.Build.Leased.{IsProtected, build_plan-IsGuarded}
use mha_go.Failover.Verify.{verify_post_failover}
use mha_go.Failover.Verify.Verified.{IsFailedOver, verify_post_failover-IsFailedOver}

abbrev sunny : Env Call
sunny = record { error_of = λ t e. none; run_id = λ t. codes "run" }

abbrev chosen : ClusterView → Result Text NodeState
chosen v = ok candidate

build_plan-updates_example :
    updates (build_plan sunny spec (ok view) chosen 0 []).1
    ≡ updates {C = Call} []
      ++ ((codes "run", status_of (build_plan sunny spec (ok view) chosen 0 []).0) ∷ [])
build_plan-updates_example = build_plan-updates sunny spec (ok view) chosen 0 [] refl

build_plan-IsGuarded_example :
    IsProtected sunny spec (ok view) chosen 0 [] (build_plan sunny spec (ok view) chosen 0 [])
build_plan-IsGuarded_example = build_plan-IsGuarded sunny spec (ok view) chosen 0 []

abbrev plan : FailoverPlan
plan = make_plan spec view dead_primary candidate 0

abbrev server : List ReplicaChannelStatus → Inspection
server channels = record {
  node_id = [];
  address = [];
  server_uuid = [];
  version = [];
  version_comment = [];
  version_series = [];
  gtid_mode = [];
  gtid_executed = [];
  read_only = false;
  super_read_only = false;
  semi_sync_source_enabled = false;
  semi_sync_source_operational = false;
  semi_sync_replica_operational = false;
  replica_channels = channels;
}

abbrev channel : ReplicaChannelStatus
channel = record {
  channel_name = [];
  source_host = codes "DB2";
  source_port = pos 0;
  source_uuid = [];
  auto_position = true;
  io_thread_running = true;
  sql_thread_running = true;
  retrieved_gtid_set = [];
  executed_gtid_set = [];
  seconds_behind_source = pos 0;
  last_io_error = [];
  last_sql_error = [];
}

abbrev inspect : NodeSpec → Result Text Inspection
inspect n = ok (if text_eq n.id (codes "db2") then server [] else server (channel ∷ []))

verified : verify_post_failover inspect plan spec ≡ ok tt
unfolding verify_post_failover make_plan plan_without_steps text_eq skipped_replica_ids
    node_state_by_id
verified = refl

verify_post_failover-IsFailedOver_example :
    (c : NodeSpec) × (new : Inspection) × IsFailedOver inspect plan spec c new
verify_post_failover-IsFailedOver_example =
    verify_post_failover-IsFailedOver inspect plan spec verified
