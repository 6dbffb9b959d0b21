-- ===== src/Failover/Executor/Log.antt =====
-- The calls in a trace of internal/controller/failover/executor.go.
use mha_go.Base.{Text, [], ◌∷◌, ◌++◌, refl, Bool-cases, inl, inr}
use mha_go.Effects.{release, Env}
use mha_go.Effects.Log.{Calls}
pub use mha_go.Effects.Log.{log-append, IsQuiet, log-quiet, log-call}
unfoldable pub use mha_go.Effects.Log.{log_from, log}
use mha_go.Domain.Spec.{ClusterSpec}
use mha_go.Domain.Plan.{FailoverPlan}
use mha_go.Failover.Executor.{finish, abort_hook, complete_hook, is_none}
use mha_go.Failover.Actions.{Call, Progress}

abbrev pub Log : Type 0
Log = Calls Call

module _ (env : Env Call) where
  pub finish-IsQuiet :
      (spec : ClusterSpec) (plan : FailoverPlan) (run_id : Text) (p : Progress)
      → IsQuiet env (finish spec plan run_id p ++ (release plan.lease_key plan.lease_owner ∷ []))
  unfolding finish log_from abort_hook complete_hook
  finish-IsQuiet spec plan run_id p t = elim (Bool-cases p.blocked) [
    | inl b ↦ rw b refl
    | inr b ↦
        rw b (elim (Bool-cases (is_none p.failed_step)) [ inl f ↦ rw f refl | inr f ↦ rw f refl ])
  ]
