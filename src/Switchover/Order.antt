-- ===== src/Switchover/Order.antt =====
-- The calls that an execution makes: internal/controller/switchover/executor.go.
use mha_go.Base.{Bool, Text, [], ◌∷◌, ◌++◌, Option, none, some, ◌≡◌, refl, sym, ap, subst, ◌∙◌}
use mha_go.Domain.Spec.{ClusterSpec}
use mha_go.Domain.Switchover.{SwitchoverPlan, SwitchoverExecution}
use mha_go.Effects.{Env, then_do}
use mha_go.Effects.Log.{Calls, log, log_from, log-quiet}
use mha_go.Effects.Jobs.{Conforms}
use mha_go.Switchover.Executor.{
  SwitchCall, Trace, Progress, Outcome, is_none, hook, complete_hook, start_hook, conclude,
  execute_held, execute_plan, create_outcome, lease_outcome, create_effect, lease_effect,
  release_effect,
}
use mha_go.Switchover.Rounds.{jobs_of, IsRun, run_steps-IsRun}

-- What an execution is that has its record and its lease.
pub record IsExecuted (env : Env SwitchCall) (plan : SwitchoverPlan) (t : Trace) (o : Outcome)
    : Type 0 where
  pub logged : Calls SwitchCall
  pub log_grows : log env o.trace ≡ log env t ++ logged
  pub conforms : Conforms (jobs_of plan.steps) logged (is_none o.error)
  pub execution :
      (x : SwitchoverExecution) × (o.execution ≡ some x) × (x.succeeded ≡ is_none o.error)

module _ (env : Env SwitchCall) (spec : ClusterSpec) (plan : SwitchoverPlan) (dry_run : Bool) where
  log-conclude :
      (run_id : Text) (r : Progress × Option Text)
      → log env (conclude env spec plan dry_run run_id r).trace ≡ log env r.0.trace
  unfolding conclude
  log-conclude run_id (p, some e) =
      log-quiet env p.trace _ (λ t. unfold log_from release_effect in refl)
  log-conclude run_id (p, none) =
      log-quiet env p.trace _ (λ t. unfold log_from release_effect complete_hook hook in refl)

  conclude-execution :
      (run_id : Text) (r : Progress × Option Text)
      → is_none r.0.failed_step ≡ is_none r.1
      → (x : SwitchoverExecution) × ((conclude env spec plan dry_run run_id r).execution ≡ some x)
        × (x.succeeded ≡ is_none (conclude env spec plan dry_run run_id r).error)
  unfolding conclude
  conclude-execution run_id (p, some e) h = (_, refl, refl)
  conclude-execution run_id (p, none) h = (_, refl, h)

  error-conclude :
      (run_id : Text) (r : Progress × Option Text)
      → (conclude env spec plan dry_run run_id r).error ≡ r.1
  unfolding conclude
  error-conclude run_id (p, some e) = refl
  error-conclude run_id (p, none) = refl

  IsExecuted-conclude :
      (run_id : Text) (t : Trace) (p : Progress) (r : Progress × Option Text)
      → log env p.trace ≡ log env t
      → IsRun env (jobs_of plan.steps) p r
      → IsExecuted env plan t (conclude env spec plan dry_run run_id r)
  IsExecuted-conclude run_id t p r same run = record {
    logged = run.logged;
    log_grows = log-conclude run_id r ∙ (run.log_grows ∙ ap (λ l. l ++ run.logged) same);
    conforms =
        subst (λ e. Conforms (jobs_of plan.steps) run.logged (is_none e))
          (sym (error-conclude run_id r)) run.conforms;
    execution = conclude-execution run_id r run.failed_iff;
  }

  abbrev held : Trace → Trace
  held t =
      then_do
        (then_do (then_do t (create_effect env spec plan dry_run))
          (lease_effect env spec plan dry_run))
        (start_hook env spec plan dry_run)

  log-held : (t : Trace) → log env (held t) ≡ log env t
  log-held t =
      log-quiet env _ (start_hook env spec plan dry_run ∷ [])
        (λ u. unfold log_from start_hook hook in refl)
      ∙ (log-quiet env _ (lease_effect env spec plan dry_run ∷ [])
            (λ u. unfold log_from lease_effect in refl)
          ∙ log-quiet env t (create_effect env spec plan dry_run ∷ [])
              (λ u. unfold log_from create_effect in refl))

  -- Where the run's record is created and the lease is had, executing a switchover plan makes the
  -- calls of the steps that are not skipped, in the plan's order, up to and with the first that
  -- fails; an execution is returned, and it has succeeded exactly if no call has failed, which is
  -- exactly when no error is returned.
  pub switchover_ordered :
      (t : Trace)
      → env.error_of t (create_effect env spec plan dry_run) ≡ none
      → env.error_of
          (then_do t (create_effect env spec plan dry_run))
          (lease_effect env spec plan dry_run)
        ≡ none
      → IsExecuted env plan t (execute_plan env spec plan dry_run t)
  unfolding execute_plan create_outcome lease_outcome execute_held
  switchover_ordered t created leased = rw created (
      rw leased (
        IsExecuted-conclude (env.run_id t) t
          record { failed_step = none; results = []; trace = held t } _ (log-held t)
          (run_steps-IsRun env spec plan dry_run (env.run_id t) plan.steps
            record { failed_step = none; results = []; trace = held t } refl)))
