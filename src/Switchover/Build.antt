-- ===== src/Switchover/Build.antt =====
-- What `BuildPlan` of internal/controller/switchover/controller.go writes to the run store.
use mha_go.Base.{ℕ, Text, codes, List, [], ◌∷◌, ◌++◌, map, Option, none, some, Result, ok, err}
use mha_go.Domain.Spec.{ClusterSpec}
use mha_go.Domain.View.{ClusterView, NodeState, EventSeverity}
use mha_go.Domain.Run.{RunKind, RunStatus}
use mha_go.Domain.Switchover.{SwitchoverPlan}
use mha_go.Topology.Assessment.{assess_replication}
use mha_go.Topology.Codes.{finding_event}
use mha_go.Effects.{Effect, create_run, append_event, update_run, Env, then_do, event}
use mha_go.Switchover.Plan.{plan_for}

unfoldable pub plan_summary : SwitchoverPlan → Text
plan_summary plan =
    codes "planned switchover from "
    ++ (plan.original_primary.id ++ (codes " to " ++ plan.candidate.id))

-- What ends a run: its error, or the plan's summary.
unfoldable pub ending : {C : Type 0} → Text → Result Text SwitchoverPlan → List (Effect C)
unfolding plan_summary
ending run_id (err e) = update_run run_id RunStatus.failed e ∷ []
ending run_id (ok plan) =
    append_event run_id (event (codes "plan") EventSeverity.info (plan_summary plan))
    ∷ update_run run_id RunStatus.succeeded (plan_summary plan)
    ∷ []

abbrev pub Built : Type 0 → Type 0
Built C = Result Text SwitchoverPlan × List (Effect C)

-- The discoverer, the selector and the time are the arguments of this section.
module _ {C : Type 0} (env : Env C) (spec : ClusterSpec) (discover : Result Text ClusterView)
    (select : ClusterView → Result Text NodeState) (now : ℕ) where
  unfoldable pub create_effect : Effect C
  create_effect = create_run spec.name RunKind.switch RunStatus.running []

  -- Behind the discovery.
  unfoldable pub plan_discovered : Text → Result Text ClusterView → List (Effect C) → Built C
  unfolding finding_event ending plan_for
  plan_discovered run_id (err e) t = (err e, t ++ ending run_id (err e))
  plan_discovered run_id (ok view) t =
      let plan = plan_for spec select now view in
      (plan, t ++ (map (finding_event run_id) (assess_replication spec view) ++ ending run_id plan))

  unfoldable pub plan_created : List (Effect C) → Option Text → Built C
  unfolding plan_discovered
  plan_created t (some e) = (err e, then_do t create_effect)
  plan_created t none = plan_discovered (env.run_id t) discover (then_do t create_effect)

  -- `BuildPlan`
  unfoldable pub build_plan : List (Effect C) → Built C
  unfolding plan_created create_effect
  build_plan t = plan_created t (env.error_of t create_effect)
