-- ===== src/Switchover/Rounds.antt =====
-- The loop over the steps of a plan: internal/controller/switchover/executor.go.
use mha_go.Base.{
  Bool, false, Text, List, [], ◌∷◌, ◌++◌, append-nil, append_assoc, Option, none, some, ◌≡◌, refl,
  sym, ap, subst, ◌∙◌, inl, inr, Option-cases,
}
use mha_go.Domain.Spec.{ClusterSpec}
use mha_go.Domain.Switchover.{SwitchStep, SwitchStatus, SwitchoverStep, SwitchoverPlan}
use mha_go.Effects.{Env, call, then_do}
use mha_go.Effects.Log.{Calls, log, log_from, log-quiet, log-call}
use mha_go.Effects.Jobs.{JobOf, Conforms, finished, went_on, gave_up}
use mha_go.Switchover.Executor.{
  SwitchCall, Progress, call_of, is_none, unless_error, round, run_steps, after_step, fail_step,
  complete_step, skip_step, hook, abort_hook,
}

abbrev pub step_jobs : SwitchStatus → SwitchStep → List (JobOf SwitchCall) → List (JobOf SwitchCall)
step_jobs SwitchStatus.pending name rest = (call_of name, false) ∷ rest
step_jobs SwitchStatus.skipped name rest = rest

-- The calls of the steps that are not skipped.
unfoldable pub jobs_of : List SwitchoverStep → List (JobOf SwitchCall)
jobs_of [] = []
jobs_of (s ∷ rest) = step_jobs s.status s.name (jobs_of rest)

-- What the loop over steps that stand for the jobs does.
pub record IsRun (env : Env SwitchCall) (jobs : List (JobOf SwitchCall)) (p : Progress)
    (r : Progress × Option Text) : Type 0 where
  pub logged : Calls SwitchCall
  pub log_grows : log env r.0.trace ≡ log env p.trace ++ logged
  pub conforms : Conforms jobs logged (is_none r.1)
  pub failed_iff : is_none r.0.failed_step ≡ is_none r.1

module _ (env : Env SwitchCall) (spec : ClusterSpec) (plan : SwitchoverPlan) (dry_run : Bool)
    (run_id : Text) where
  abbrev steps_from : List SwitchoverStep → Progress → Progress × Option Text
  steps_from = run_steps env spec plan dry_run run_id

  abbrev called : SwitchStep → Progress → Progress
  called name p = record p { trace = then_do p.trace (call (call_of name)) }

  log-complete_step :
      (name : SwitchStep) (p : Progress)
      → log env (complete_step env spec plan dry_run run_id name p).trace ≡ log env p.trace
  unfolding complete_step
  log-complete_step name p = log-quiet env p.trace _ (λ t. unfold log_from in refl)

  log-fail_step :
      (name : SwitchStep) (e : Text) (p : Progress)
      → log env (fail_step env spec plan dry_run run_id name e p).trace ≡ log env p.trace
  unfolding fail_step
  log-fail_step name e p = log-quiet env p.trace _ (λ t. unfold log_from abort_hook hook in refl)

  -- The rounds behind a call that did not fail.
  IsRun-went_on :
      {jobs : List (JobOf SwitchCall)} (name : SwitchStep) (p q : Progress)
      {r : Progress × Option Text}
      → env.error_of p.trace (call (call_of name)) ≡ none
      → log env q.trace ≡ log env (called name p).trace
      → IsRun env jobs q r
      → IsRun env ((call_of name, false) ∷ jobs) p r
  IsRun-went_on name p q e same run = record {
    logged = (call_of name, none) ∷ run.logged;
    log_grows =
        run.log_grows
        ∙ (ap (λ l. l ++ run.logged)
              (same
                ∙ (log-call env p.trace (call_of name)
                    ∙ ap (λ a. log env p.trace ++ ((call_of name, a) ∷ [])) e))
            ∙ append_assoc (log env p.trace) ((call_of name, none) ∷ []) run.logged);
    conforms = went_on (inl refl) run.conforms;
    failed_iff = run.failed_iff;
  }

  IsRun-gave_up :
      {jobs : List (JobOf SwitchCall)} (name : SwitchStep) (p : Progress) (e : Text)
      → env.error_of p.trace (call (call_of name)) ≡ some e
      → IsRun env
          ((call_of name, false) ∷ jobs)
          p
          (fail_step env spec plan dry_run run_id name e (called name p), some e)
  IsRun-gave_up name p e h = record {
    logged = (call_of name, some e) ∷ [];
    log_grows =
        log-fail_step name e (called name p)
        ∙ (log-call env p.trace (call_of name)
            ∙ ap (λ a. log env p.trace ++ ((call_of name, a) ∷ [])) h);
    conforms = gave_up;
    failed_iff = unfold fail_step in refl;
  }

  round-pending :
      (name : SwitchStep) (p : Progress) (a : Option Text)
      → env.error_of p.trace (call (call_of name)) ≡ a
      → round env spec plan dry_run run_id name SwitchStatus.pending p
        ≡ after_step env spec plan dry_run run_id name a (called name p)
  unfolding round
  round-pending name p a e = rw e refl

  -- What the rest of the loop does for the jobs from any progress without a failure.
  abbrev Runs : (Progress → Progress × Option Text) → List (JobOf SwitchCall) → Type 0
  Runs rest jobs = (p : Progress) → p.failed_step ≡ none → IsRun env jobs p (rest p)

  IsRun-round :
      (rest : Progress → Progress × Option Text) (jobs : List (JobOf SwitchCall))
      (name : SwitchStep) (status : SwitchStatus) (p : Progress)
      → Runs rest jobs
      → p.failed_step ≡ none
      → IsRun env
          (step_jobs status name jobs)
          p
          (unless_error rest (round env spec plan dry_run run_id name status p))
  IsRun-round rest jobs name SwitchStatus.skipped p runs h =
      unfold round skip_step in
      (let run = runs (skip_step env spec plan dry_run name p) (unfold skip_step in h) in
        record {
          logged = run.logged;
          log_grows = unfold skip_step in run.log_grows;
          conforms = run.conforms;
          failed_iff = unfold skip_step in run.failed_iff;
        })
  IsRun-round rest jobs name SwitchStatus.pending p runs h =
      elim (Option-cases (env.error_of p.trace (call (call_of name)))) [
        | inl e ↦
            subst (λ r. IsRun env ((call_of name, false) ∷ jobs) p (unless_error rest r))
              (sym (round-pending name p none e))
              (unfold after_step in
                IsRun-went_on name p
                  (complete_step env spec plan dry_run run_id name (called name p)) e
                  (log-complete_step name (called name p))
                  (runs (complete_step env spec plan dry_run run_id name (called name p))
                    (unfold complete_step in h)))
        | inr (x, e) ↦
            subst (λ r. IsRun env ((call_of name, false) ∷ jobs) p (unless_error rest r))
              (sym (round-pending name p (some x) e))
              (unfold after_step in IsRun-gave_up name p x e)
      ]

  pub run_steps-IsRun : (steps : List SwitchoverStep) → Runs (steps_from steps) (jobs_of steps)
  unfolding run_steps jobs_of
  run_steps-IsRun [] p h = record {
    logged = [];
    log_grows = sym (append-nil (log env p.trace));
    conforms = finished;
    failed_iff = rw h refl;
  }
  run_steps-IsRun (s ∷ rest) p h =
      IsRun-round (steps_from rest) (jobs_of rest) s.name s.status p (run_steps-IsRun rest) h
