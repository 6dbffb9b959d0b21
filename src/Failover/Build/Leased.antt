-- ===== src/Failover/Build/Leased.antt =====
-- The lease of `BuildPlan` in internal/controller/failover/controller.go.
use mha_go.Base.{
  ℕ, Text, List, [], ◌∷◌, ◌++◌, append_assoc, map, All, All-append, Option, none, some, Result, ok,
  err, ◌≡◌, refl, sym, ap, ◌∙◌, subst, inl, inr, Option-cases,
}
use mha_go.Domain.Spec.{ClusterSpec}
use mha_go.Domain.View.{ClusterView, NodeState}
use mha_go.Domain.Run.{RunStatus}
use mha_go.Domain.Plan.{FailoverPlan}
use mha_go.Topology.Assessment.{Finding, assess_replication}
use mha_go.Topology.Codes.{finding_event}
use mha_go.Effects.{Effect, Env, update_run, then_do}
use mha_go.Effects.Leased.{
  IsFree, Extends, IsGuarded, moves, moves_from, moves-quiet, taken, leased-IsGuarded,
  IsGuarded-after,
}
use mha_go.Failover.Plan.{failover_lease_key}
use mha_go.Failover.Build.{
  ending, plan_event, plan_for, build_plan, plan_created, plan_leased, plan_discovered,
  create_effect, lease_effect, lease_event, release_effect, Built,
}

findings-IsFree :
    (C : Type 0) (run_id : Text) (findings : List Finding)
    → All (IsFree {C = C}) (map (finding_event run_id) findings)
unfolding finding_event
findings-IsFree C run_id [] = tt
findings-IsFree C run_id (f ∷ findings) = (tt, findings-IsFree C run_id findings)

ending-IsFree :
    (C : Type 0) (run_id : Text) (r : Result Text FailoverPlan)
    → All (IsFree {C = C}) (ending run_id r)
unfolding ending plan_event
ending-IsFree C run_id (err e) = (tt, tt)
ending-IsFree C run_id (ok plan) = (tt, (tt, tt))

module _ {C : Type 0} (env : Env C) (spec : ClusterSpec) (discover : Result Text ClusterView)
    (select : ClusterView → Result Text NodeState) (now : ℕ) where
  -- Where a plan is returned, it is made under the lease.
  abbrev pub IsProtected : List (Effect C) → Built C → Type 0
  IsProtected t b =
      IsGuarded env (failover_lease_key spec) spec.controller.id ((e : Text) × (b.0 ≡ err e)) t b.1

  -- The release comes last.
  discovered-Extends :
      (run_id : Text) (found : Result Text ClusterView) (t : List (Effect C))
      → (t' : List (Effect C)) × ((plan_discovered env spec discover select now run_id found t).1
          ≡ then_do t' (release_effect env spec discover select now))
        × Extends t t'
  unfolding plan_discovered
  discovered-Extends run_id (err e) t = (
    t ++ ending run_id (err e),
    sym (append_assoc t (ending run_id (err e)) (release_effect env spec discover select now ∷ [])),
    (ending run_id (err e), refl, ending-IsFree C run_id (err e)),
  )
  discovered-Extends run_id (ok view) t =
      let findings = map (finding_event run_id) (assess_replication spec view) in
      let last = ending run_id (plan_for env spec discover select now view) in
      (
        t ++ (findings ++ last),
        ap (λ l. t ++ l)
              (sym (append_assoc findings last (release_effect env spec discover select now ∷ [])))
            ∙ sym (
                append_assoc t (findings ++ last)
                  (release_effect env spec discover select now ∷ [])),
        (
          findings ++ last,
          refl,
          All-append IsFree findings last (findings-IsFree C run_id (assess_replication spec view))
              (ending-IsFree C run_id (plan_for env spec discover select now view)),
        ),
      )

  refused_moves :
      (run_id : Text) (t : List (Effect C)) {e : Text}
      → env.error_of t (lease_effect env spec discover select now) ≡ some e
      → moves_from env t
          (lease_effect env spec discover select now ∷ update_run run_id RunStatus.failed e ∷ [])
        ≡ []
  unfolding moves_from lease_effect
  refused_moves run_id t failed =
      ap (λ a. taken env (failover_lease_key spec) spec.controller.id a ++ []) failed

  plan_leased-IsGuarded :
      (run_id : Text) (t : List (Effect C)) (answer : Option Text)
      → env.error_of t (lease_effect env spec discover select now) ≡ answer
      → IsProtected t (plan_leased env spec discover select now run_id t answer)
  unfolding plan_leased lease_effect
  plan_leased-IsGuarded run_id t (some e) failed =
      inl ((_, refl), moves-quiet env t _ (refused_moves run_id t failed))
  plan_leased-IsGuarded run_id t none had =
      let event = lease_event env spec discover select now run_id in
      let lease = lease_effect env spec discover select now in
      let (t', e, (u, grown, free)) =
        discovered-Extends run_id discover (t ++ (lease ∷ event ∷ [])) in
      subst (IsGuarded env (failover_lease_key spec) spec.controller.id _ t) (sym e) (
        unfold release_effect in
        leased-IsGuarded env (failover_lease_key spec) spec.controller.id _
          spec.controller.lease.ttl t t' had
          (
            event ∷ u,
            grown
                ∙ (append_assoc t (lease ∷ event ∷ []) u
                    ∙ sym (append_assoc t (lease ∷ []) (event ∷ u))),
            (unfold lease_event in tt, free),
          ))

  -- Planning a failover either returns an error, does nothing to a lease and makes no call of the
  -- runner; or, whatever it returns, it takes the lease of the cluster's failovers for the controller,
  -- and releases this lease behind whatever calls it makes.
  pub build_plan-IsGuarded :
      (t : List (Effect C)) → IsProtected t (build_plan env spec discover select now t)
  unfolding build_plan plan_created
  build_plan-IsGuarded t = elim (Option-cases (env.error_of t created)) [
    | inr (e, failed) ↦ rw failed (inl ((_, refl), created_moves))
    | inl had ↦ rw had (
        IsGuarded-after env _ _ _ t (then_do t created) _ created_moves
          (plan_leased-IsGuarded (env.run_id t) (then_do t created) _ refl))
  ]
    where
      created : Effect C
      created = create_effect env spec discover select now

      created_moves : moves env (then_do t created) ≡ moves env t
      created_moves = moves-quiet env t (created ∷ []) (unfold moves_from create_effect in refl)
