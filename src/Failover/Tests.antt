-- ===== src/Failover/Tests.antt =====
-- Failovers of the cluster of Domain/Examples.antt.
use mha_go.Base.{ℕ, true, false, codes, [], ◌∷◌, none, some, ◌≡◌, refl, ok}
use mha_go.Domain.Examples.{spec, view, dead_primary, candidate, follower}
use mha_go.Base.{text_eq, is_blank, any, keep, find, text_lt}
use mha_go.Domain.View.{primary_node}
use mha_go.Failover.Readiness.{
  build_blocking_reasons, blocking_behind, dedupe_strings, confirm_primary_failure,
  evaluate_promote_readiness, readiness_behind, replica_reasons, strict_reasons, salvage_reasons,
  assessment_reasons, early_reasons, is_relevant,
}
use mha_go.Gtid.Recovery.{build_recovery_summary, is_other_live_replica}
use mha_go.Gtid.Print.{subtract_texts}
use mha_go.Gtid.Sets.{remaining}
use mha_go.Topology.Assessment.{
  errors, assess_replication, assess_nodes, assess_primary, assess_semi_sync, assess_replica,
  assess_source, spec_node_role, spec_node_version_series,
}
use mha_go.Base.Lists.{head, tail}
use mha_go.Effects.{Env}
use mha_go.Gtid.Interval.Cover.{covers}
use mha_go.Gtid.Sets.Laws.{member}
use mha_go.Failover.Guarantee.{strict_keeps_primary, strict_keeps_replica}
use mha_go.Failover.Executor.{Execution, execute_plan}
use mha_go.Failover.Actions.{Call}
use mha_go.Base.{◌++◌}
use mha_go.Failover.Executor.Log.{Log, log}
use mha_go.Failover.Fenced.{fenced_first, promoted_after_fencing}
use mha_go.Failover.Executor.Order.{IsExecuted}
use mha_go.Failover.Runs.{failover_blocked, failover_ordered}
use mha_go.Failover.Leased.{IsProtected, failover-IsGuarded}
use mha_go.Failover.Plan.{make_plan}
use mha_go.Gtid.Sets.{GtidSet}
use mha_go.Gtid.Parse.{parse}

permitted : (make_plan spec view dead_primary candidate 0).execution_permitted ≡ true
unfolding make_plan build_blocking_reasons blocking_behind dedupe_strings confirm_primary_failure
    evaluate_promote_readiness readiness_behind replica_reasons strict_reasons salvage_reasons
    assessment_reasons early_reasons is_relevant build_recovery_summary subtract_texts remaining
    errors assess_replication assess_nodes assess_primary assess_semi_sync assess_replica
    assess_source spec_node_role spec_node_version_series primary_node text_eq is_blank any keep
    find text_lt
permitted = refl

blocked : (make_plan spec view candidate follower 0).execution_permitted ≡ false
unfolding make_plan build_blocking_reasons blocking_behind dedupe_strings confirm_primary_failure
    evaluate_promote_readiness readiness_behind replica_reasons strict_reasons salvage_reasons
    assessment_reasons early_reasons is_relevant build_recovery_summary subtract_texts remaining
    errors assess_replication assess_nodes assess_primary assess_semi_sync assess_replica
    assess_source spec_node_role spec_node_version_series primary_node text_eq is_blank any keep
    find text_lt
blocked = refl

-- An environment in which nothing fails.
abbrev sunny : Env Call
sunny = record { error_of = λ t e. none; run_id = λ t. codes "run" }

abbrev up_to : ℕ → GtidSet
up_to n = (codes "u1", record { start = 1; end = n } ∷ []) ∷ []

parse_primary : parse dead_primary.gtid_executed ≡ ok (up_to 5)
unfolding parse text_eq
parse_primary = refl

parse_follower : parse follower.gtid_executed ≡ ok (up_to 6)
unfolding parse text_eq
parse_follower = refl

parse_candidate : parse candidate.gtid_executed ≡ ok (up_to 7)
unfolding parse text_eq
parse_candidate = refl

member_primary : member (up_to 5) (codes "u1") 3 ≡ true
unfolding member covers text_eq
member_primary = refl

member_follower : member (up_to 6) (codes "u1") 6 ≡ true
unfolding member covers text_eq
member_follower = refl

live_follower : is_other_live_replica candidate follower ≡ true
unfolding is_other_live_replica text_eq
live_follower = refl

strict_keeps_primary_example : member (up_to 7) (codes "u1") 3 ≡ true
strict_keeps_primary_example =
    strict_keeps_primary spec view dead_primary candidate 0 refl permitted (codes "u1") 3
      parse_primary parse_candidate member_primary

strict_keeps_replica_example : member (up_to 7) (codes "u1") 6 ≡ true
strict_keeps_replica_example =
    strict_keeps_replica spec view dead_primary candidate 0 refl permitted follower (codes "u1") 6
      (tail (tail head)) live_follower parse_follower parse_candidate member_follower

failover_ordered_example :
    IsExecuted sunny
      (make_plan spec view dead_primary candidate 0)
      []
      (execute_plan sunny spec (make_plan spec view dead_primary candidate 0) false [])
failover_ordered_example =
    failover_ordered sunny spec view dead_primary candidate 0 false [] permitted refl refl

failover_blocked_example :
    (log sunny (execute_plan sunny spec (make_plan spec view candidate follower 0) false []).trace
      ≡ log sunny [])
    × ((x : Execution)
        → (execute_plan sunny spec (make_plan spec view candidate follower 0) false []).execution
          ≡ some x
        → (x.blocked ≡ true) × (x.succeeded ≡ false))
failover_blocked_example = failover_blocked sunny spec view candidate follower 0 false [] blocked

failover-IsGuarded_example :
    IsProtected sunny spec
      (make_plan spec view dead_primary candidate 0)
      false
      []
      (execute_plan sunny spec (make_plan spec view dead_primary candidate 0) false [])
failover-IsGuarded_example =
    failover-IsGuarded sunny spec (make_plan spec view dead_primary candidate 0) false []

promoted_after_fencing_example :
    (l : Log) × (log sunny
        (execute_plan sunny spec (make_plan spec view dead_primary candidate 0) false []).trace
      ≡ log sunny [] ++ l)
    × (fenced_first l ≡ true)
promoted_after_fencing_example =
    promoted_after_fencing sunny spec view dead_primary candidate 0 false []
