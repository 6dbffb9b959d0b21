-- ===== src/Switchover/Leased.antt =====
-- The lease of `ExecutePlan` in internal/controller/switchover/executor.go.
use mha_go.Base.{
  Bool, Text, List, [], ◌∷◌, ◌++◌, Option, none, some, ◌≡◌, refl, sym, ap, subst, inl, inr,
  Option-cases, append_assoc,
}
use mha_go.Domain.Spec.{ClusterSpec}
use mha_go.Domain.Run.{RunStatus}
use mha_go.Domain.Switchover.{SwitchStep, SwitchStatus, SwitchoverStep, SwitchoverPlan}
use mha_go.Effects.{Env, update_run, call, then_do}
use mha_go.Effects.Leased.{
  Extends, Extends-refl, Extends-trans, Extends-append, IsGuarded, moves, moves_from, moves-quiet,
  taken, leased-IsGuarded, IsGuarded-after,
}
use mha_go.Switchover.Executor.{
  SwitchCall, Trace, Progress, Outcome, call_of, unless_error, round, run_steps, after_step,
  fail_step, complete_step, skip_step, hook, abort_hook, start_hook, complete_hook, lease_key,
  completed_text, create_effect, lease_effect, release_effect, conclude, execute_held,
  lease_outcome, create_outcome, execute_plan,
}

module _ (env : Env SwitchCall) (spec : ClusterSpec) (plan : SwitchoverPlan) (dry_run : Bool) where
  -- Where an execution is returned, its calls are made under the lease.
  abbrev pub IsProtected : Trace → Outcome → Type 0
  IsProtected t o =
      IsGuarded env (lease_key env spec plan dry_run) spec.controller.id (o.execution ≡ none) t
        o.trace

  created_moves :
      (t : Trace) → moves env (then_do t (create_effect env spec plan dry_run)) ≡ moves env t
  created_moves t =
      moves-quiet env t (create_effect env spec plan dry_run ∷ [])
        (unfold moves_from create_effect in refl)

  module _ (run_id : Text) where
    after_step-Extends :
        (name : SwitchStep) (e : Option Text) (p : Progress)
        → Extends p.trace (after_step env spec plan dry_run run_id name e p).0.trace
    unfolding after_step fail_step complete_step abort_hook hook
    after_step-Extends name (some e) p = Extends-append p.trace _ (tt, (tt, (tt, tt)))
    after_step-Extends name none p = Extends-append p.trace _ (tt, tt)

    round-Extends :
        (name : SwitchStep) (status : SwitchStatus) (p : Progress)
        → Extends p.trace (round env spec plan dry_run run_id name status p).0.trace
    unfolding round skip_step
    round-Extends name SwitchStatus.skipped p = Extends-refl p.trace
    round-Extends name SwitchStatus.pending p =
        Extends-trans p.trace (then_do p.trace (call (call_of name))) _
          (Extends-append p.trace _ (tt, tt))
          (after_step-Extends name (env.error_of p.trace (call (call_of name)))
            (record p { trace = then_do p.trace (call (call_of name)) }))

    unless_error-Extends :
        (rest : Progress → Progress × Option Text) (t : Trace) (r : Progress × Option Text)
        → ((p : Progress) → Extends p.trace (rest p).0.trace)
        → Extends t r.0.trace
        → Extends t (unless_error rest r).0.trace
    unless_error-Extends rest t (p, none) h e = Extends-trans t p.trace _ e (h p)
    unless_error-Extends rest t (p, some x) h e = e

    run_steps-Extends :
        (steps : List SwitchoverStep) (p : Progress)
        → Extends p.trace (run_steps env spec plan dry_run run_id steps p).0.trace
    unfolding run_steps
    run_steps-Extends [] p = Extends-refl p.trace
    run_steps-Extends (s ∷ rest) p =
        unless_error-Extends (run_steps env spec plan dry_run run_id rest) p.trace _
          (run_steps-Extends rest) (round-Extends s.name s.status p)

    -- The release comes last.
    conclude-Extends :
        (r : Progress × Option Text)
        → (t : Trace) × ((conclude env spec plan dry_run run_id r).trace
            ≡ then_do t (release_effect env spec plan dry_run))
          × Extends r.0.trace t
    unfolding conclude complete_hook hook
    conclude-Extends (p, some e) = (p.trace, refl, Extends-refl p.trace)
    conclude-Extends (p, none) =
        let u : Trace =
          update_run run_id RunStatus.succeeded (completed_text env spec plan dry_run)
          ∷ complete_hook env spec plan dry_run
          ∷ [] in
        (
          p.trace ++ u,
          sym (append_assoc p.trace u (release_effect env spec plan dry_run ∷ [])),
          Extends-append p.trace u (tt, (tt, tt)),
        )

    refused_moves :
        (t : Trace) {e : Text}
        → env.error_of t (lease_effect env spec plan dry_run) ≡ some e
        → moves_from env t
            (lease_effect env spec plan dry_run ∷ update_run run_id RunStatus.failed e ∷ [])
          ≡ []
    unfolding moves_from lease_effect
    refused_moves t failed =
        ap (λ a. taken env (lease_key env spec plan dry_run) spec.controller.id a ++ []) failed

    held-IsGuarded :
        (t : Trace)
        → env.error_of t (lease_effect env spec plan dry_run) ≡ none
        → IsProtected t (
            execute_held env spec plan dry_run run_id
              (then_do t (lease_effect env spec plan dry_run)))
    unfolding execute_held lease_effect
    held-IsGuarded t had =
        let start =
          then_do (then_do t (lease_effect env spec plan dry_run))
            (start_hook env spec plan dry_run) in
        let p : Progress = record { failed_step = none; results = []; trace = start } in
        let r = run_steps env spec plan dry_run run_id plan.steps p in
        let (t', e, x) = conclude-Extends r in
        subst (IsGuarded env (lease_key env spec plan dry_run) spec.controller.id _ t) (sym e) (
          unfold release_effect in
          leased-IsGuarded env (lease_key env spec plan dry_run) spec.controller.id _
            spec.controller.lease.ttl t t' had
            (Extends-trans (then_do t (lease_effect env spec plan dry_run)) start t'
              (Extends-append (then_do t (lease_effect env spec plan dry_run)) _
                (unfold start_hook hook in (tt, tt)))
              (Extends-trans start r.0.trace t' (run_steps-Extends plan.steps p) x)))

    lease-IsGuarded :
        (t : Trace) (answer : Option Text)
        → env.error_of t (lease_effect env spec plan dry_run) ≡ answer
        → IsProtected t (lease_outcome env spec plan dry_run run_id t answer)
    unfolding lease_outcome
    lease-IsGuarded t none had = held-IsGuarded t had
    lease-IsGuarded t (some e) failed = inl (refl, moves-quiet env t _ (refused_moves t failed))

  -- Executing a switchover plan either returns no execution, does nothing to a lease and makes no
  -- call of the runner; or, however it ends, it takes the lease of the cluster for the controller, makes
  -- its calls, and releases this lease behind the last of them.
  pub switchover-IsGuarded : (t : Trace) → IsProtected t (execute_plan env spec plan dry_run t)
  unfolding execute_plan create_outcome
  switchover-IsGuarded t =
      elim (Option-cases (env.error_of t (create_effect env spec plan dry_run))) [
        | inr (e, failed) ↦ rw failed (inl (refl, created_moves t))
        | inl created ↦ rw created (
            IsGuarded-after env _ _ _ t (then_do t (create_effect env spec plan dry_run)) _
              (created_moves t)
              (lease-IsGuarded (env.run_id t) (then_do t (create_effect env spec plan dry_run)) _
                refl))
      ]
