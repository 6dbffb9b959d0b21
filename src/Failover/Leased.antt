-- ===== src/Failover/Leased.antt =====
-- The lease of `ExecutePlan` in internal/controller/failover/executor.go.
use mha_go.Base.{
  ℕ, Bool, true, false, if◌then◌else◌, Text, List, [], ◌∷◌, ◌++◌, Option, none, some, ◌≡◌, refl,
  sym, ap, subst, inl, inr, Option-cases, Bool-cases, append_assoc, All, get_elem?, not, ◌&&◌,
}
use mha_go.Domain.Spec.{ClusterSpec}
use mha_go.Domain.Run.{RunStatus}
use mha_go.Domain.Plan.{
  acquire_lease, confirm_primary_dead, precheck_writer_endpoint, fence_old_primary, recover,
  promote_candidate, repoint_replicas, switch_writer_endpoint, verify_writer_endpoint,
  verify_cluster, StepName, SalvageAction, FailoverStep, FailoverPlan,
}
use mha_go.Effects.{Env, update_run, release, then_do}
use mha_go.Effects.Leased.{
  IsFree, Extends, Extends-refl, Extends-trans, Extends-append, IsGuarded, moves, moves_from,
  moves-quiet, taken, leased-IsGuarded, IsGuarded-after,
}
use mha_go.Failover.Executor.{
  hook, start_hook, abort_hook, complete_hook, step_hook, block_step, warn_step, fail_step,
  complete_step, after_step, run_pending, round, run_steps, proceed, next, stop, abort, Flow,
  finish, is_none, is_completed, is_pending, conclude, start_progress, create_effect, lease_effect,
  execute_held, Outcome, lease_outcome, create_outcome, execute_plan,
}
use mha_go.Failover.Actions.{Call, Trace, Progress, execute_step, salvage_call, invoke, is_recover}

module _ (env : Env Call) (spec : ClusterSpec) (plan : FailoverPlan) where
  step_hook-IsFree : (name : StepName) → All IsFree (step_hook spec plan name)
  unfolding step_hook hook
  step_hook-IsFree fence_old_primary = (tt, tt)
  step_hook-IsFree promote_candidate = (tt, tt)
  step_hook-IsFree switch_writer_endpoint = (tt, tt)
  step_hook-IsFree acquire_lease = tt
  step_hook-IsFree confirm_primary_dead = tt
  step_hook-IsFree precheck_writer_endpoint = tt
  step_hook-IsFree (recover k) = tt
  step_hook-IsFree repoint_replicas = tt
  step_hook-IsFree verify_writer_endpoint = tt
  step_hook-IsFree verify_cluster = tt

  salvage_call-Extends :
      (action : Option SalvageAction) (name : StepName) (i : ℕ) (t : Trace)
      → Extends t (salvage_call env action name i t).2
  unfolding salvage_call invoke
  salvage_call-Extends none name i t = Extends-refl t
  salvage_call-Extends (some a) name i t = Extends-append t _ (tt, tt)

  execute_step-Extends :
      (name : StepName) (i : ℕ) (t : Trace) → Extends t (execute_step env plan name i t).2
  unfolding execute_step invoke
  execute_step-Extends precheck_writer_endpoint i t = Extends-append t _ (tt, tt)
  execute_step-Extends fence_old_primary i t = Extends-append t _ (tt, tt)
  execute_step-Extends (recover k) i t =
      salvage_call-Extends (get_elem? plan.salvage_actions i) (recover k) i t
  execute_step-Extends promote_candidate i t = Extends-append t _ (tt, tt)
  execute_step-Extends repoint_replicas i t = Extends-append t _ (tt, tt)
  execute_step-Extends switch_writer_endpoint i t = Extends-append t _ (tt, tt)
  execute_step-Extends verify_writer_endpoint i t = Extends-append t _ (tt, tt)
  execute_step-Extends verify_cluster i t = Extends-append t _ (tt, tt)
  execute_step-Extends acquire_lease i t = Extends-refl t
  execute_step-Extends confirm_primary_dead i t = Extends-refl t

  module _ (run_id : Text) where
    after_step-Extends :
        (s : FailoverStep) (e : Option Text) (p : Progress)
        → Extends p.trace (after_step spec plan run_id s e p).0.trace
    unfolding after_step warn_step fail_step complete_step abort_hook hook
    after_step-Extends s none p = Extends-append p.trace _ (tt, step_hook-IsFree s.name)
    after_step-Extends s (some e) p = elim (Bool-cases (is_recover s.name && not s.required)) [
      | inl b ↦ rw b (Extends-append p.trace _ (tt, tt))
      | inr b ↦ rw b (Extends-append p.trace _ (tt, (tt, (tt, tt))))
    ]

    run_pending-Extends :
        (s : FailoverStep) (p : Progress)
        → Extends p.trace (run_pending spec plan run_id env s p).0.trace
    unfolding run_pending
    run_pending-Extends s p =
        let r = execute_step env plan s.name p.salvage_index p.trace in
        Extends-trans p.trace r.2 _ (execute_step-Extends s.name p.salvage_index p.trace)
          (after_step-Extends s r.0 (record p { salvage_index = r.1; trace = r.2 }))

    either :
        (t : Trace) (b : Bool) (x y : Progress × Flow)
        → Extends t x.0.trace
        → Extends t y.0.trace
        → Extends t (if b then x else y).0.trace
    either t true x y h k = h
    either t false x y h k = k

    round-Extends :
        (s : FailoverStep) (rest : List FailoverStep) (p : Progress)
        → Extends p.trace (round spec plan run_id env s rest p).0.trace
    unfolding round block_step
    round-Extends s rest p = either p.trace p.blocked _ _ (Extends-refl p.trace) (
        either p.trace s.blocking _ _ (Extends-append p.trace _ (tt, tt)) (
          either p.trace (is_completed s.status) _ _ (Extends-refl p.trace) (
            either p.trace (not (is_pending s.status)) _ _ (Extends-refl p.trace)
              (run_pending-Extends s p))))

    proceed-Extends :
        (rest : Progress → Progress × Option Text) (t : Trace) (r : Progress × Flow)
        → ((p : Progress) → Extends p.trace (rest p).0.trace)
        → Extends t r.0.trace
        → Extends t (proceed rest r).0.trace
    proceed-Extends rest t (p, next) h e = Extends-trans t p.trace _ e (h p)
    proceed-Extends rest t (p, stop) h e = e
    proceed-Extends rest t (p, abort x) h e = e

    run_steps-Extends :
        (steps : List FailoverStep) (p : Progress)
        → Extends p.trace (run_steps spec plan run_id env steps p).0.trace
    unfolding run_steps
    run_steps-Extends [] p = Extends-refl p.trace
    run_steps-Extends (s ∷ rest) p =
        proceed-Extends (run_steps spec plan run_id env rest) p.trace _ (run_steps-Extends rest)
          (round-Extends s rest p)

    finish-IsFree : (p : Progress) → All IsFree (finish spec plan run_id p)
    unfolding finish abort_hook complete_hook hook
    finish-IsFree p = elim (Bool-cases p.blocked) [
      | inl b ↦ rw b (tt, (tt, tt))
      | inr b ↦ rw b (elim (Bool-cases (is_none p.failed_step)) [
        | inl f ↦ rw f (tt, (tt, tt))
        | inr f ↦ rw f (tt, tt)
      ])
    ]

    -- The release comes last.
    conclude-Extends :
        (dry_run : Bool) (r : Progress × Option Text)
        → (t : Trace) × ((conclude env spec plan dry_run run_id r).trace
            ≡ then_do t (release plan.lease_key plan.lease_owner))
          × Extends r.0.trace t
    unfolding conclude
    conclude-Extends dry_run (p, some e) = (p.trace, refl, Extends-refl p.trace)
    conclude-Extends dry_run (p, none) = (
      p.trace ++ finish spec plan run_id p,
      sym (
          append_assoc p.trace (finish spec plan run_id p)
            (release plan.lease_key plan.lease_owner ∷ [])),
      Extends-append p.trace (finish spec plan run_id p) (finish-IsFree p),
    )

module _ (env : Env Call) (spec : ClusterSpec) (plan : FailoverPlan) (dry_run : Bool) where
  -- Where an execution is returned, its calls are made under the lease.
  abbrev pub IsProtected : Trace → Outcome → Type 0
  IsProtected t o = IsGuarded env plan.lease_key plan.lease_owner (o.execution ≡ none) t o.trace

  created_moves :
      (t : Trace) → moves env (then_do t (create_effect env spec plan dry_run)) ≡ moves env t
  created_moves t =
      moves-quiet env t (create_effect env spec plan dry_run ∷ [])
        (unfold moves_from create_effect in refl)

  refused_moves :
      (run_id : Text) (t : Trace) {e : Text}
      → env.error_of t (lease_effect env spec plan dry_run) ≡ some e
      → moves_from env t
          (lease_effect env spec plan dry_run ∷ update_run run_id RunStatus.failed e ∷ [])
        ≡ []
  unfolding moves_from lease_effect
  refused_moves run_id t failed = ap (λ a. taken env plan.lease_key plan.lease_owner a ++ []) failed

  held-IsGuarded :
      (run_id : Text) (t : Trace)
      → env.error_of t (lease_effect env spec plan dry_run) ≡ none
      → IsProtected t (
          execute_held env spec plan dry_run run_id
            (then_do t (lease_effect env spec plan dry_run)))
  unfolding execute_held lease_effect start_progress
  held-IsGuarded run_id t had =
      let leased = then_do t (lease_effect env spec plan dry_run) in
      let start = then_do leased (start_hook spec plan) in
      let p : Progress = start_progress env spec plan dry_run start in
      let r = run_steps spec plan run_id env plan.steps p in
      let (t', e, x) = conclude-Extends env spec plan run_id dry_run r in
      subst (IsGuarded env plan.lease_key plan.lease_owner _ t) (sym e) (
        leased-IsGuarded env plan.lease_key plan.lease_owner _ spec.controller.lease.ttl t t' had (
          Extends-trans leased start t'
            (Extends-append leased _ (unfold start_hook hook in (tt, tt)))
            (Extends-trans start r.0.trace t' (run_steps-Extends env spec plan run_id plan.steps p)
              x)))

  lease-IsGuarded :
      (run_id : Text) (t : Trace) (answer : Option Text)
      → env.error_of t (lease_effect env spec plan dry_run) ≡ answer
      → IsProtected t (lease_outcome env spec plan dry_run run_id t answer)
  unfolding lease_outcome
  lease-IsGuarded run_id t none had = held-IsGuarded run_id t had
  lease-IsGuarded run_id t (some e) failed =
      inl (refl, moves-quiet env t _ (refused_moves run_id t failed))

  -- Executing a failover plan either returns no execution, does nothing to a lease and makes no call of
  -- the runner; or, however it ends, it takes the lease of the plan for its owner, makes its calls,
  -- and releases this lease behind the last of them.
  pub failover-IsGuarded : (t : Trace) → IsProtected t (execute_plan env spec plan dry_run t)
  unfolding execute_plan create_outcome
  failover-IsGuarded t =
      elim (Option-cases (env.error_of t (create_effect env spec plan dry_run))) [
        | inr (e, failed) ↦ rw failed (inl (refl, created_moves t))
        | inl created ↦ rw created (
            IsGuarded-after env _ _ _ t (then_do t (create_effect env spec plan dry_run)) _
              (created_moves t)
              (lease-IsGuarded (env.run_id t) (then_do t (create_effect env spec plan dry_run)) _
                refl))
      ]
