-- ===== src/Runner/Tests.antt =====
-- A switchover's operations on the cluster of Domain/Examples.antt, on servers where all succeed.
use mha_go.Base.{true, Text, codes, [], some, ok, text_eq, ◌≡◌, refl}
use mha_go.Base.Lists.{head, tail}
use mha_go.Domain.Spec.{NodeSpec, NodeRole}
use mha_go.Domain.Switchover.{SwitchoverPlan}
use mha_go.Domain.Inspection.{node_spec_by_id}
use mha_go.Domain.Examples.{spec, node_spec, dead_primary, candidate}
use mha_go.Switchover.Plan.{plan_of}
use mha_go.Runner.{Servers, repoint_to_source}
use mha_go.Runner.Grows.{Did}
use mha_go.Runner.Switch.{wait_candidate_catch_up, repoint_replicas, is_repointed}
use mha_go.Runner.Switch.Caught.{IsCaughtUp, wait_candidate_catch_up-IsCaughtUp}
use mha_go.Runner.Switch.Repointed.{repoint_replicas_lem}
use mha_go.Base.{List, In}
use mha_go.Domain.Plan.{FailoverPlan}
use mha_go.Domain.Examples.{view}
use mha_go.Failover.Plan.{make_plan, plan_without_steps}
use mha_go.Runner.Failover
use mha_go.Runner.Failover.Handled.{IsHandled, repoint_replicas-IsHandled}

abbrev sunny : Servers
sunny t op = ok (codes "u1:1-7")

abbrev plan : SwitchoverPlan
plan = plan_of spec dead_primary candidate 0

waited : (wait_candidate_catch_up sunny spec plan []).0 ≡ ok tt
unfolding wait_candidate_catch_up plan_of text_eq
waited = refl

wait_candidate_catch_up-IsCaughtUp_example :
    IsCaughtUp sunny spec plan (wait_candidate_catch_up sunny spec plan []).1
wait_candidate_catch_up-IsCaughtUp_example =
    wait_candidate_catch_up-IsCaughtUp sunny spec plan [] waited

abbrev third : NodeSpec
third = node_spec (codes "db3") NodeRole.replica

repointed : (repoint_replicas sunny spec plan []).0 ≡ ok tt
unfolding repoint_replicas plan_of text_eq
repointed = refl

third_chosen : is_repointed plan.candidate.id plan.original_primary.id third ≡ true
unfolding plan_of text_eq
third_chosen = refl

third_found : node_spec_by_id spec third.id ≡ some third
unfolding node_spec_by_id text_eq
third_found = refl

repoint_replicas_lem_example :
    (c : NodeSpec) × (password : Text) × (a : Text) × (node_spec_by_id spec plan.candidate.id
      ≡ some c)
    × Did (repoint_replicas sunny spec plan []).1 (repoint_to_source third c password) a
repoint_replicas_lem_example =
    repoint_replicas_lem sunny spec plan [] third repointed (tail (tail head)) third_chosen
      third_found

abbrev failover_plan : FailoverPlan
failover_plan = make_plan spec view dead_primary candidate 0

abbrev second : NodeSpec
second = node_spec (codes "db2") NodeRole.replica

second_found : node_spec_by_id spec failover_plan.candidate.id ≡ some second
unfolding node_spec_by_id make_plan plan_without_steps text_eq
second_found = refl

repoint_replicas-IsHandled_example :
    (skipped : List Text) × ((Failover.repoint_replicas sunny spec failover_plan []).0 ≡ ok skipped)
    × ((id : Text) (ns : NodeSpec)
        → In id (Failover.replicas_to_repoint spec failover_plan)
        → node_spec_by_id spec id ≡ some ns
        → IsHandled sunny spec failover_plan second
            (codes "u1:1-7")
            id
            ns
            (skipped, (Failover.repoint_replicas sunny spec failover_plan []).1))
repoint_replicas-IsHandled_example =
    repoint_replicas-IsHandled sunny spec failover_plan [] second_found refl
