-- ===== src/Failover/Build.antt =====
-- `BuildPlan` of internal/controller/failover/controller.go, with what it asks of the run store and the
-- lease manager.
pub mod Closed
pub mod Leased
use mha_go.Base.{
  ℕ, Text, codes, List, [], ◌∷◌, ◌++◌, map, print_int, print_bool, Option, none, some, Result, ok,
  err, ◌>>=◌,
}
use mha_go.Domain.Spec.{ClusterSpec}
use mha_go.Domain.View.{ClusterView, NodeState, primary_node, EventSeverity}
use mha_go.Domain.Run.{RunKind, RunStatus}
use mha_go.Domain.Plan.{FailoverPlan}
use mha_go.Topology.Assessment.{assess_replication}
use mha_go.Topology.Codes.{finding_event}
use mha_go.Effects.{
  Effect, create_run, append_event, update_run, acquire, release, Env, then_do, event,
}
use mha_go.Failover.Plan.{make_plan, failover_lease_key}

unfoldable pub no_primary_text : ClusterSpec → Text
no_primary_text spec =
    codes "cluster \"" ++ (spec.name ++ codes "\" has no primary in the discovered view")

unfoldable pub plan_summary : FailoverPlan → Text
plan_summary plan =
    codes "planned failover from " ++ (plan.old_primary.id ++ (codes " to " ++ plan.candidate.id))

unfoldable pub plan_event : {C : Type 0} → Text → FailoverPlan → Effect C
unfolding plan_summary print_int
plan_event run_id plan = append_event run_id (record {
  phase = codes "plan";
  severity = EventSeverity.info;
  message = plan_summary plan;
  metadata =
      (codes "candidate_freshness_score", print_int plan.candidate_freshness_score)
      ∷ (codes "candidate_most_advanced", print_bool plan.candidate_most_advanced)
      ∷ (codes "primary_failure_confirmed", print_bool plan.primary_failure_confirmed)
      ∷ (codes "promote_readiness", print_bool plan.promote_readiness_confirmed)
      ∷ (codes "execution_permitted", print_bool plan.execution_permitted)
      ∷ (codes "missing_from_primary", plan.missing_from_primary_gtid_set)
      ∷ [];
})

-- What ends a run: its error, or the plan.
unfoldable pub ending : {C : Type 0} → Text → Result Text FailoverPlan → List (Effect C)
unfolding plan_event
ending run_id (err e) = update_run run_id RunStatus.failed e ∷ []
ending run_id (ok plan) =
    plan_event run_id plan ∷ update_run run_id RunStatus.succeeded (plan_summary plan) ∷ []

abbrev pub Built : Type 0 → Type 0
Built C = Result Text FailoverPlan × List (Effect C)

abbrev pub primary_or_err : ClusterSpec → Option NodeState → Result Text NodeState
primary_or_err spec none = err (no_primary_text spec)
primary_or_err spec (some n) = ok n

-- The discoverer, the selector and the time are the arguments of this section.
module _ {C : Type 0} (env : Env C) (spec : ClusterSpec) (discover : Result Text ClusterView)
    (select : ClusterView → Result Text NodeState) (now : ℕ) where
  -- What is made of a discovered view.
  unfoldable pub plan_for : ClusterView → Result Text FailoverPlan
  unfolding primary_node no_primary_text make_plan
  plan_for view = do
    old_primary ← primary_or_err spec (primary_node view)
    candidate ← select view
    ok (make_plan spec view old_primary candidate now)

  unfoldable pub create_effect : Effect C
  create_effect = create_run spec.name RunKind.failover RunStatus.running []

  unfoldable pub lease_effect : Effect C
  unfolding failover_lease_key
  lease_effect = acquire (failover_lease_key spec) spec.controller.id spec.controller.lease.ttl

  -- The deferred `lease.Release`.
  unfoldable pub release_effect : Effect C
  unfolding failover_lease_key
  release_effect = release (failover_lease_key spec) spec.controller.id

  unfoldable pub lease_event : Text → Effect C
  unfolding failover_lease_key
  lease_event run_id = append_event run_id (record {
    phase = codes "lease";
    severity = EventSeverity.info;
    message = codes "acquired failover lease";
    metadata =
        (codes "lease_key", failover_lease_key spec)
        ∷ (codes "lease_owner", spec.controller.id)
        ∷ [];
  })

  -- Behind the discovery, with the lease held.
  unfoldable pub plan_discovered : Text → Result Text ClusterView → List (Effect C) → Built C
  unfolding finding_event ending plan_for release_effect
  plan_discovered run_id (err e) t = (err e, t ++ (ending run_id (err e) ++ (release_effect ∷ [])))
  plan_discovered run_id (ok view) t =
      let plan = plan_for view in
      (
        plan,
        t
            ++ (map (finding_event run_id) (assess_replication spec view)
                ++ (ending run_id plan ++ (release_effect ∷ []))),
      )

  unfoldable pub lease_error : Text → Text
  unfolding failover_lease_key
  lease_error e =
      codes "acquire failover lease \"" ++ (failover_lease_key spec ++ (codes "\": " ++ e))

  unfoldable pub plan_leased : Text → List (Effect C) → Option Text → Built C
  unfolding lease_error lease_effect lease_event plan_discovered
  plan_leased run_id t (some e) =
      (err (lease_error e), t ++ (lease_effect ∷ update_run run_id RunStatus.failed e ∷ []))
  plan_leased run_id t none =
      plan_discovered run_id discover (t ++ (lease_effect ∷ lease_event run_id ∷ []))

  unfoldable pub plan_created : List (Effect C) → Option Text → Built C
  unfolding plan_leased create_effect
  plan_created t (some e) = (err e, then_do t create_effect)
  plan_created t none =
      let t' = then_do t create_effect in
      plan_leased (env.run_id t) t' (env.error_of t' lease_effect)

  -- `BuildPlan`
  unfoldable pub build_plan : List (Effect C) → Built C
  unfolding plan_created create_effect
  build_plan t = plan_created t (env.error_of t create_effect)
