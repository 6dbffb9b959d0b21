-- ===== src/Failover/Build/Closed.antt =====
-- How `BuildPlan` of internal/controller/failover/controller.go leaves its run.
use mha_go.Base.{
  ℕ, Text, List, [], ◌∷◌, ◌++◌, append-nil, map, Option, none, some, Result, ok, err, ◌≡◌, refl, ap,
  ◌∙◌,
}
use mha_go.Domain.Spec.{ClusterSpec}
use mha_go.Domain.View.{ClusterView, NodeState}
use mha_go.Domain.Run.{RunStatus}
use mha_go.Domain.Plan.{FailoverPlan}
use mha_go.Topology.Assessment.{assess_replication}
use mha_go.Topology.Codes.{finding_event, updates-findings}
use mha_go.Effects.{Effect, Env, then_do}
use mha_go.Effects.Updates.{updates, updates-append}
use mha_go.Failover.Build.{
  ending, plan_event, plan_for, build_plan, plan_created, plan_leased, plan_discovered,
  create_effect, lease_effect, lease_event, release_effect,
}

-- The status that a run ends with.
abbrev pub status_of : Result Text FailoverPlan → RunStatus
status_of (err e) = RunStatus.failed
status_of (ok plan) = RunStatus.succeeded

module _ {C : Type 0} (env : Env C) (spec : ClusterSpec) (discover : Result Text ClusterView)
    (select : ClusterView → Result Text NodeState) (now : ℕ) where
  -- The ending writes the status, and what follows writes none.
  updates-ending :
      (run_id : Text) (r : Result Text FailoverPlan)
      → updates (ending {C = C} run_id r ++ (release_effect env spec discover select now ∷ []))
        ≡ (run_id, status_of r) ∷ []
  unfolding ending updates plan_event release_effect
  updates-ending run_id (err e) = refl
  updates-ending run_id (ok plan) = refl

  updates-discovered :
      (run_id : Text) (found : Result Text ClusterView) (t : List (Effect C))
      → updates (plan_discovered env spec discover select now run_id found t).1
        ≡ updates t
          ++ ((run_id, status_of (plan_discovered env spec discover select now run_id found t).0)
              ∷ [])
  unfolding plan_discovered
  updates-discovered run_id (err e) t =
      updates-append t _ ∙ ap (λ l. updates t ++ l) (updates-ending run_id (err e))
  updates-discovered run_id (ok view) t =
      updates-append t _
      ∙ ap (λ l. updates t ++ l)
          (updates-append (map (finding_event run_id) (assess_replication spec view)) _
            ∙ (ap
                  (λ l.
                    l
                    ++ updates (
                        ending run_id (plan_for env spec discover select now view)
                        ++ (release_effect env spec discover select now ∷ [])))
                  (updates-findings C run_id (assess_replication spec view))
                ∙ updates-ending run_id (plan_for env spec discover select now view)))

  updates-leased :
      (run_id : Text) (t : List (Effect C)) (a : Option Text)
      → updates (plan_leased env spec discover select now run_id t a).1
        ≡ updates t
          ++ ((run_id, status_of (plan_leased env spec discover select now run_id t a).0) ∷ [])
  unfolding plan_leased
  updates-leased run_id t (some e) =
      updates-append t _ ∙ ap (λ l. updates t ++ l) (unfold updates lease_effect in refl)
  updates-leased run_id t none =
      updates-discovered run_id discover _
      ∙ ap
          (λ l.
            l
            ++ ((
              run_id,
              status_of
                  (plan_discovered env spec discover select now run_id discover (
                    t
                    ++ (lease_effect env spec discover select now
                        ∷ lease_event env spec discover select now run_id
                        ∷ []))).0,
            )
                ∷ []))
          (updates-append t _ ∙ (unfold updates lease_effect lease_event in append-nil (updates t)))

  -- When the run's record is created, the planning of a failover writes exactly one status, and to this
  -- run: it has succeeded where a plan is returned, and failed where an error is.
  pub build_plan-updates :
      (t : List (Effect C))
      → env.error_of t (create_effect env spec discover select now) ≡ none
      → updates (build_plan env spec discover select now t).1
        ≡ updates t
          ++ ((env.run_id t, status_of (build_plan env spec discover select now t).0) ∷ [])
  unfolding build_plan
  build_plan-updates t created = rw created (
      unfold plan_created in
      updates-leased (env.run_id t) (then_do t (create_effect env spec discover select now)) _
      ∙ ap
          (λ l.
            l
            ++ ((
              env.run_id t,
              status_of
                  (plan_leased env spec discover select now (env.run_id t)
                    (then_do t (create_effect env spec discover select now))
                    (env.error_of (then_do t (create_effect env spec discover select now))
                      (lease_effect env spec discover select now))).0,
            )
                ∷ []))
          (updates-append t (create_effect env spec discover select now ∷ [])
            ∙ (unfold updates create_effect in append-nil (updates t))))
