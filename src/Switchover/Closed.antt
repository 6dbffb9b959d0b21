-- ===== src/Switchover/Closed.antt =====
-- How `BuildPlan` of internal/controller/switchover/controller.go leaves its run.
use mha_go.Base.{
  ℕ, Text, List, [], ◌∷◌, ◌++◌, append-nil, map, none, Result, ok, err, ◌≡◌, refl, ap, ◌∙◌,
}
use mha_go.Domain.Spec.{ClusterSpec}
use mha_go.Domain.View.{ClusterView, NodeState}
use mha_go.Domain.Run.{RunStatus}
use mha_go.Domain.Switchover.{SwitchoverPlan}
use mha_go.Topology.Assessment.{assess_replication}
use mha_go.Topology.Codes.{finding_event, updates-findings}
use mha_go.Effects.{Effect, Env, then_do}
use mha_go.Effects.Updates.{updates, updates-append}
use mha_go.Switchover.Plan.{plan_for}
use mha_go.Switchover.Build.{ending, build_plan, plan_created, plan_discovered, create_effect}

-- The status that a run ends with.
abbrev pub status_of : Result Text SwitchoverPlan → RunStatus
status_of (err e) = RunStatus.failed
status_of (ok plan) = RunStatus.succeeded

module _ {C : Type 0} (env : Env C) (spec : ClusterSpec) (discover : Result Text ClusterView)
    (select : ClusterView → Result Text NodeState) (now : ℕ) where
  updates-ending :
      (run_id : Text) (r : Result Text SwitchoverPlan)
      → updates (ending {C = C} run_id r) ≡ (run_id, status_of r) ∷ []
  unfolding ending updates
  updates-ending run_id (err e) = refl
  updates-ending run_id (ok plan) = refl

  updates-discovered :
      (run_id : Text) (found : Result Text ClusterView) (t : List (Effect C))
      → updates (plan_discovered env spec discover select now run_id found t).1
        ≡ updates t
          ++ ((run_id, status_of (plan_discovered env spec discover select now run_id found t).0)
              ∷ [])
  unfolding plan_discovered
  updates-discovered run_id (err e) t =
      updates-append t _ ∙ ap (λ l. updates t ++ l) (updates-ending run_id (err e))
  updates-discovered run_id (ok view) t =
      updates-append t _
      ∙ ap (λ l. updates t ++ l)
          (updates-append (map (finding_event run_id) (assess_replication spec view)) _
            ∙ (ap (λ l. l ++ updates (ending {C = C} run_id (plan_for spec select now view)))
                  (updates-findings C run_id (assess_replication spec view))
                ∙ updates-ending run_id (plan_for spec select now view)))

  -- When the run's record is created, the planning of a switchover writes exactly one status, and to
  -- this run: it has succeeded where a plan is returned, and failed where an error is.
  pub switchover_build-updates :
      (t : List (Effect C))
      → env.error_of t (create_effect env spec discover select now) ≡ none
      → updates (build_plan env spec discover select now t).1
        ≡ updates t
          ++ ((env.run_id t, status_of (build_plan env spec discover select now t).0) ∷ [])
  unfolding build_plan
  switchover_build-updates t created = rw created (
      unfold plan_created in
      updates-discovered (env.run_id t) discover
        (then_do t (create_effect env spec discover select now))
      ∙ ap
          (λ l.
            l
            ++ ((
              env.run_id t,
              status_of
                  (plan_discovered env spec discover select now (env.run_id t) discover
                    (then_do t (create_effect env spec discover select now))).0,
            )
                ∷ []))
          (updates-append t (create_effect env spec discover select now ∷ [])
            ∙ (unfold updates create_effect in append-nil (updates t))))
