-- ===== src/Failover/Executor/Rounds.antt =====
-- The loop of `ExecutePlan` in internal/controller/failover/executor.go over steps that stand for
-- calls.
use mha_go.Base.{
  ℕ, ◌+◌, Bool, true, false, not, ◌&&◌, Text, List, [], ◌∷◌, ◌++◌, append-nil, append_assoc, Option,
  none, some, ◌≡◌, refl, sym, ap, subst, ◌∙◌, arith, ◌⊎◌, inl, inr, Bool-cases, Option-cases,
  get_elem?,
}
use mha_go.Domain.Spec.{ClusterSpec}
use mha_go.Domain.Plan.{
  SalvageAction, StepName, acquire_lease, confirm_primary_dead, precheck_writer_endpoint,
  fence_old_primary, recover, promote_candidate, repoint_replicas, switch_writer_endpoint,
  verify_writer_endpoint, verify_cluster, StepStatus, FailoverStep, FailoverPlan,
}
use mha_go.Effects.{Env, call, then_do}
use mha_go.Failover.Executor.{
  next, abort, round, run_pending, after_step, run_steps, is_none, complete_step, fail_step,
  warn_step, step_hook, hook, abort_hook,
}
use mha_go.Failover.Actions.{Call, salvage, Trace, Progress, execute_step, invoke, is_recover}
use mha_go.Failover.Executor.Log.{Log, log, log_from, log-quiet, log-call, IsQuiet}
use mha_go.Failover.Executor.Blocked.{run_steps-next, run_steps-abort, round_completed}
use mha_go.Failover.Executor.Jobs.{
  Job, Conforms, finished, went_on, gave_up, plain, Stands, empty, already, runs, salvages,
}

-- The loop over steps that stand for jobs.
pub record IsRun (env : Env Call) (jobs : List Job) (p : Progress) (r : Progress × Option Text)
    : Type 0 where
  pub logged : Log
  pub log_grows : log env r.0.trace ≡ log env p.trace ++ logged
  pub conforms : Conforms jobs logged (is_none r.1)
  pub not_blocked : r.0.blocked ≡ false
  pub failed_iff : is_none r.0.failed_step ≡ is_none r.1

module _ (spec : ClusterSpec) (plan : FailoverPlan) (run_id : Text) (env : Env Call) where
  round_pending :
      (s : FailoverStep) (rest : List FailoverStep) (p : Progress)
      → p.blocked ≡ false
      → s.blocking ≡ false
      → s.status ≡ StepStatus.pending
      → round spec plan run_id env s rest p ≡ run_pending spec plan run_id env s p
  unfolding round
  round_pending s rest p nb b e = ground arith

  step_hook-IsQuiet : (name : StepName) → IsQuiet env (step_hook spec plan name)
  unfolding log_from step_hook hook
  step_hook-IsQuiet acquire_lease t = refl
  step_hook-IsQuiet confirm_primary_dead t = refl
  step_hook-IsQuiet precheck_writer_endpoint t = refl
  step_hook-IsQuiet fence_old_primary t = refl
  step_hook-IsQuiet (recover k) t = refl
  step_hook-IsQuiet promote_candidate t = refl
  step_hook-IsQuiet repoint_replicas t = refl
  step_hook-IsQuiet switch_writer_endpoint t = refl
  step_hook-IsQuiet verify_writer_endpoint t = refl
  step_hook-IsQuiet verify_cluster t = refl

  -- A plain step makes its call and nothing else that counts.
  execute_step-plain :
      (name : StepName) {c : Call} (i : ℕ) (t : Trace)
      → plain name ≡ some c
      → execute_step env plan name i t ≡ (env.error_of t (call c), i, then_do t (call c))
  unfolding execute_step invoke
  execute_step-plain name i t e = ground arith

  execute_step-salvage :
      (name : StepName) (a : SalvageAction) (i : ℕ) (t : Trace)
      → name ≡ recover a.kind
      → get_elem? plan.salvage_actions i ≡ some a
      → execute_step env plan name i t
        ≡ (env.error_of t (call (salvage a)), i + 1, then_do t (call (salvage a)))
  unfolding execute_step invoke
  execute_step-salvage name a i t e h = ground arith

  -- The progress behind a call, where nothing but the salvage index and the trace differ.
  abbrev after_call : Progress → ℕ → Call → Progress
  after_call p i c = record p { salvage_index = i; trace = then_do p.trace (call c) }

  log-complete_step :
      (s : FailoverStep) (p : Progress)
      → log env (complete_step spec plan run_id s p).trace ≡ log env p.trace
  unfolding complete_step
  log-complete_step s p =
      log-quiet env p.trace _ (λ t. unfold log_from in step_hook-IsQuiet s.name _)

  log-warn_step :
      (s : FailoverStep) (e : Text) (p : Progress)
      → log env (warn_step spec plan run_id s e p).trace ≡ log env p.trace
  unfolding warn_step
  log-warn_step s e p = log-quiet env p.trace _ (λ t. unfold log_from in refl)

  log-fail_step :
      (s : FailoverStep) (e : Text) (p : Progress)
      → log env (fail_step spec plan run_id s e p).trace ≡ log env p.trace
  unfolding fail_step
  log-fail_step s e p = log-quiet env p.trace _ (λ t. unfold log_from abort_hook hook in refl)

  run_pending-of :
      (s : FailoverStep) (p : Progress) (i : ℕ) (c : Call)
      → execute_step env plan s.name p.salvage_index p.trace
        ≡ (env.error_of p.trace (call c), i, then_do p.trace (call c))
      → run_pending spec plan run_id env s p
        ≡ after_step spec plan run_id s (env.error_of p.trace (call c)) (after_call p i c)
  unfolding run_pending
  run_pending-of s p i c e = rw e refl

  -- A call whose failure is none or passed over, and the loop behind it.
  IsRun-went_on :
      {jobs : List Job} {p q : Progress} {r : Progress × Option Text} {c : Call} {optional : Bool}
      → (env.error_of p.trace (call c) ≡ none) ⊎ (optional ≡ true)
      → log env q.trace ≡ log env p.trace ++ ((c, env.error_of p.trace (call c)) ∷ [])
      → IsRun env jobs q r
      → IsRun env ((c, optional) ∷ jobs) p r
  IsRun-went_on {jobs} {p} {q} {r} {c} h e run = record {
    logged = (c, env.error_of p.trace (call c)) ∷ run.logged;
    log_grows =
        run.log_grows
        ∙ (ap (λ l. l ++ run.logged) e
            ∙ append_assoc (log env p.trace) ((c, env.error_of p.trace (call c)) ∷ []) run.logged);
    conforms = went_on h run.conforms;
    not_blocked = run.not_blocked;
    failed_iff = run.failed_iff;
  }

  -- What the loop's induction needs of a progress.
  pub record Starts (i : ℕ) (p : Progress) : Type 0 where
    pub unblocked : p.blocked ≡ false
    pub unfailed : p.failed_step ≡ none
    pub index : p.salvage_index ≡ i

  -- What the loop does for the jobs from any progress that starts at an index.
  abbrev pub Runs : ℕ → List FailoverStep → List Job → Type 0
  Runs i steps jobs =
      (p : Progress) → Starts i p → IsRun env jobs p (run_steps spec plan run_id env steps p)

  complete_step-Starts :
      (s : FailoverStep) (p : Progress) (i j : ℕ) (c : Call)
      → Starts i p
      → Starts j (complete_step spec plan run_id s (after_call p j c))
  unfolding complete_step
  complete_step-Starts s p i j c h = record {
    unblocked = h.unblocked;
    unfailed = h.unfailed;
    index = refl;
  }

  warn_step-Starts :
      (s : FailoverStep) (e : Text) (p : Progress) (i j : ℕ) (c : Call)
      → Starts i p
      → Starts j (warn_step spec plan run_id s e (after_call p j c))
  unfolding warn_step
  warn_step-Starts s e p i j c h = record {
    unblocked = h.unblocked;
    unfailed = h.unfailed;
    index = refl;
  }

  module _ (s : FailoverStep) (rest : List FailoverStep) (jobs : List Job) (p : Progress) (i j : ℕ)
      (c : Call) (starts : Starts i p)
      (executed : execute_step env plan s.name p.salvage_index p.trace
        ≡ (env.error_of p.trace (call c), j, then_do p.trace (call c)))
      (rounds : round spec plan run_id env s rest p ≡ run_pending spec plan run_id env s p) where
    round-after_step :
        round spec plan run_id env s rest p
        ≡ after_step spec plan run_id s (env.error_of p.trace (call c)) (after_call p j c)
    round-after_step = rounds ∙ run_pending-of s p j c executed

    call_completed :
        (optional : Bool)
        → env.error_of p.trace (call c) ≡ none
        → Runs j rest jobs
        → IsRun env ((c, optional) ∷ jobs) p (run_steps spec plan run_id env (s ∷ rest) p)
    call_completed optional e later =
        let q = complete_step spec plan run_id s (after_call p j c) in
        let went : round spec plan run_id env s rest p ≡ (q, next) =
          round-after_step
          ∙ unfold after_step in ap (λ x. after_step spec plan run_id s x (after_call p j c)) e in
        rw (run_steps-next spec plan run_id env s rest p q went) (
          IsRun-went_on (inl e) (log-complete_step s (after_call p j c) ∙ log-call env p.trace c)
            (later q (complete_step-Starts s p i j c starts)))

    call_warned :
        (x : Text)
        → env.error_of p.trace (call c) ≡ some x
        → is_recover s.name && not s.required ≡ true
        → Runs j rest jobs
        → IsRun env ((c, true) ∷ jobs) p (run_steps spec plan run_id env (s ∷ rest) p)
    call_warned x e w later =
        let q = warn_step spec plan run_id s x (after_call p j c) in
        let went : round spec plan run_id env s rest p ≡ (q, next) =
          round-after_step ∙ unfold after_step in rw e (rw w refl) in
        rw (run_steps-next spec plan run_id env s rest p q went) (
          IsRun-went_on (inr refl) (log-warn_step s x (after_call p j c) ∙ log-call env p.trace c)
            (later q (warn_step-Starts s x p i j c starts)))

    call_failed :
        (x : Text)
        → env.error_of p.trace (call c) ≡ some x
        → is_recover s.name && not s.required ≡ false
        → IsRun env ((c, false) ∷ jobs) p (run_steps spec plan run_id env (s ∷ rest) p)
    call_failed x e w =
        let q = fail_step spec plan run_id s x (after_call p j c) in
        let went : round spec plan run_id env s rest p ≡ (q, abort x) =
          round-after_step ∙ unfold after_step in rw e (rw w refl) in
        rw (run_steps-abort spec plan run_id env s rest p q x went) record {
          logged = (c, some x) ∷ [];
          log_grows =
              log-fail_step s x (after_call p j c)
              ∙ (log-call env p.trace c ∙ ap (λ a. log env p.trace ++ ((c, a) ∷ [])) e);
          conforms = gave_up;
          not_blocked = unfold fail_step in starts.unblocked;
          failed_iff = unfold fail_step in refl;
        }

  plain-not_recover : (name : StepName) {c : Call} → plain name ≡ some c → is_recover name ≡ false
  plain-not_recover name e = ground arith

  empty-IsRun : (i : ℕ) → Runs i [] []
  unfolding run_steps
  empty-IsRun i p h = record {
    logged = [];
    log_grows = sym (append-nil (log env p.trace));
    conforms = finished;
    not_blocked = h.unblocked;
    failed_iff = ap is_none h.unfailed;
  }

  pub Stands-IsRun :
      {i : ℕ} {steps : List FailoverStep} {jobs : List Job}
      → Stands plan i steps jobs
      → Runs i steps jobs
  Stands-IsRun (empty {i}) p h = empty-IsRun i p h
  Stands-IsRun (already {i} {s} {steps} b e more) p h =
      let (p', went, idle) = round_completed spec plan run_id env s steps p h.unblocked b e in
      let later = Stands-IsRun more p' record {
        unblocked = idle.same_blocked ∙ h.unblocked;
        unfailed = idle.same_failed ∙ h.unfailed;
        index = idle.same_index ∙ h.index;
      } in
      rw (run_steps-next spec plan run_id env s steps p p' went) record {
        logged = later.logged;
        log_grows = later.log_grows ∙ ap (λ t. log env t ++ later.logged) idle.same_trace;
        conforms = later.conforms;
        not_blocked = later.not_blocked;
        failed_iff = later.failed_iff;
      }
  Stands-IsRun (runs {i} {s} {steps} {jobs} {c} b e n more) p h =
      let j = p.salvage_index in
      let executed = execute_step-plain s.name j p.trace n in
      let rounds = round_pending s steps p h.unblocked b e in
      elim (Option-cases (env.error_of p.trace (call c))) [
        | inl x ↦
            call_completed s steps jobs p i j c h executed rounds false x
              (subst (λ k. Runs k steps jobs) (sym h.index) (Stands-IsRun more))
        | inr (x, y) ↦
            call_failed s steps jobs p i j c h executed rounds x y
              (rw (plain-not_recover s.name n) refl)
      ]
  Stands-IsRun (salvages {i} {s} {steps} {jobs} {a} b e n r g more) p h =
      let j = p.salvage_index + 1 in
      let executed =
        execute_step-salvage s.name a p.salvage_index p.trace n
          (ap (get_elem? plan.salvage_actions) h.index ∙ g) in
      let rounds = round_pending s steps p h.unblocked b e in
      let later = subst (λ k. Runs (k + 1) steps jobs) (sym h.index) (Stands-IsRun more) in
      let w : is_recover s.name && not s.required ≡ not a.required = rw n (ap not r) in
      elim (Option-cases (env.error_of p.trace (call (salvage a)))) [
        | inl x ↦
            call_completed s steps jobs p i j (salvage a) h executed rounds (not a.required) x later
        | inr (x, y) ↦ elim (Bool-cases (not a.required)) [
          | inl o ↦
              rw o (call_warned s steps jobs p i j (salvage a) h executed rounds x y (w ∙ o) later)
          | inr o ↦ rw o (call_failed s steps jobs p i j (salvage a) h executed rounds x y (w ∙ o))
        ]
      ]
