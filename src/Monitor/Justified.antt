-- ===== src/Monitor/Justified.antt =====
-- When the loop of internal/controller/monitor/engine.go confirms that the primary is dead.
use mha_go.Base.{
  ℕ, ◌+◌, ◌≤◌, true, leb, Text, List, [], ◌∷◌, some, Option-cases, Bool-cases, inl, inr, Result, ok,
  err, ◌≡◌, refl, sym, subst, arith,
}
use mha_go.Domain.Spec.{ClusterSpec, NodeSpec}
use mha_go.Domain.View.{ClusterView, primary_node}
use mha_go.Monitor.Unnoticed.{IsUnnoticed, run_secondary_checks-IsUnnoticed}
use mha_go.Monitor.Engine.{
  MonitorPhase, healthy, suspect, secondary_check, reconfirm_topology, dead_confirmed, Answers,
  Watch, watch_of, node_spec_by_id, run_secondary_checks, step, probed, reconfirmed, is_gone,
  threshold_of,
}

module _ (spec : ClusterSpec) (threshold : ℕ) where
  -- The loop's variables behind the rounds, the newest first.
  pub data Reach (start : ClusterView) : List Answers → Watch → Type 0 where
    begins : Reach start [] (watch_of healthy 0 start)
    goes_on :
        {h : List Answers} {w : Watch} (a : Answers)
        → Reach start h w
        → Reach start (a ∷ h) (step spec threshold a w)

  -- The newest `n` rounds probed the node in vain.
  pub data Failed (primary : NodeSpec) : ℕ → List Answers → Type 0 where
    no_probe : {h : List Answers} → Failed primary 0 h
    failed_probe :
        {n : ℕ} {h : List Answers} {a : Answers} {e : Text}
        → a.probe primary ≡ some e
        → Failed primary n h
        → Failed primary (n + 1) (a ∷ h)

  -- The configured primary of the view failed in the newest `n` rounds.
  pub record IsFailing (view : ClusterView) (n : ℕ) (h : List Answers) : Type 0 where
    pub primary : NodeSpec
    pub configured : node_spec_by_id spec view.primary_id ≡ some primary
    pub failed : Failed primary n h

  -- A discovery that does not find the primary alive.
  pub data IsLost : Result Text ClusterView → Type 0 where
    not_discovered : {e : Text} → IsLost (err e)
    not_alive : {v : ClusterView} → is_gone (primary_node v) ≡ true → IsLost (ok v)

  -- Enough failed probes, then a round in which nobody that is asked sees the primary.
  pub data IsUnseen (view : ClusterView) (n : ℕ) : List Answers → Type 0 where
    unseen :
        {h : List Answers} {a : Answers}
        → threshold ≤ n
        → (failing : IsFailing view n h) → IsUnnoticed spec a failing.primary view
        → IsUnseen view n (a ∷ h)

  -- And then a discovery that does not find the primary alive; more rounds do not count.
  pub data IsConfirmed (n : ℕ) : List Answers → Type 0 where
    confirmed :
        {h : List Answers} {a : Answers} {view : ClusterView}
        → IsUnseen view n h
        → IsLost a.discovered
        → IsConfirmed n (a ∷ h)
    later : {h : List Answers} {a : Answers} → IsConfirmed n h → IsConfirmed n (a ∷ h)

  -- What holds in each phase.
  abbrev Holds : MonitorPhase → ℕ → ClusterView → List Answers → Type 0
  Holds healthy n view h = n ≡ 0
  Holds suspect n view h = IsFailing view n h
  Holds secondary_check n view h = (threshold ≤ n) × IsFailing view n h
  Holds reconfirm_topology n view h = IsUnseen view n h
  Holds dead_confirmed n view h = IsConfirmed n h

  abbrev Good : Watch → List Answers → Type 0
  Good w h = Holds w.phase w.failure_count w.view h

  probed-Good :
      (n : ℕ) (view : ClusterView) (h : List Answers) (phase : MonitorPhase) (a : Answers)
      (primary : NodeSpec)
      → node_spec_by_id spec view.primary_id ≡ some primary
      → Failed primary n h
      → Good (probed threshold (watch_of phase n view) (a.probe primary)) (a ∷ h)
  probed-Good n view h phase a primary c f = elim (Option-cases (a.probe primary)) [
    | inl e ↦ rw e refl
    | inr (x, e) ↦
        let failing : IsFailing view (n + 1) (a ∷ h) = record {
          primary = primary;
          configured = c;
          failed = failed_probe e f;
        } in
        rw e (elim (Bool-cases (leb threshold (n + 1))) [
          | inl t ↦ rw t (ground arith, failing)
          | inr t ↦ rw t failing
        ])
  ]

  reconfirmed-Good :
      (n : ℕ) (view : ClusterView) (h : List Answers) (a : Answers) (d : Result Text ClusterView)
      → (IsLost d → IsConfirmed n (a ∷ h))
      → Good (reconfirmed (watch_of reconfirm_topology n view) d) (a ∷ h)
  reconfirmed-Good n view h a (err e) lost = lost not_discovered
  reconfirmed-Good n view h a (ok v) lost = elim (Bool-cases (is_gone (primary_node v))) [
    | inl e ↦ rw e (lost (not_alive e))
    | inr e ↦ rw e refl
  ]

  step-Good :
      (phase : MonitorPhase) (n : ℕ) (view : ClusterView) (h : List Answers) (a : Answers)
      → Holds phase n view h
      → Good (step spec threshold a (watch_of phase n view)) (a ∷ h)
  unfolding step
  step-Good healthy n view h a e = elim (Option-cases (node_spec_by_id spec view.primary_id)) [
    | inl c ↦ rw c e
    | inr (primary, c) ↦ rw c (
        probed-Good n view h healthy a primary c (subst (λ k. Failed primary k h) (sym e) no_probe))
  ]
  step-Good suspect n view h a f =
      rw f.configured (probed-Good n view h suspect a f.primary f.configured f.failed)
  step-Good secondary_check n view h a f = elim (Bool-cases (run_secondary_checks spec a view)) [
    | inl e ↦ rw e refl
    | inr e ↦
        rw e (
          unseen f.0 f.1
            (run_secondary_checks-IsUnnoticed spec a f.1.primary view f.1.configured e))
  ]
  step-Good reconfirm_topology n view h a f =
      reconfirmed-Good n view h a a.discovered (λ lost. confirmed f lost)
  step-Good dead_confirmed n view h a f = later f

  Reach-Good : {start : ClusterView} {h : List Answers} {w : Watch} → Reach start h w → Good w h
  Reach-Good begins = refl
  Reach-Good (goes_on {h} {w} a more) =
      step-Good w.phase w.failure_count w.view h a (Reach-Good more)

-- When the loop has confirmed a death, there were at least as many probes in a row of the configured
-- primary as the threshold asks for, all of them in vain; then a round in which no replica of the
-- view that is not marked dead, and no observer that is configured by its id, is a node of the
-- configuration that answers that it sees the primary at its host and port; and then a discovery that
-- failed or found no primary or a dead one.
pub dead_confirmed_justified :
    (spec : ClusterSpec) {start : ClusterView} {h : List Answers} {w : Watch}
    → Reach spec (threshold_of spec.controller.monitor.failure_threshold) start h w
    → w.phase ≡ dead_confirmed
    → IsConfirmed spec (threshold_of spec.controller.monitor.failure_threshold) w.failure_count h
dead_confirmed_justified spec {start} {h} {w} r e =
    subst
      (λ p.
        Holds spec (threshold_of spec.controller.monitor.failure_threshold) p w.failure_count w.view
          h)
      e (Reach-Good spec (threshold_of spec.controller.monitor.failure_threshold) r)
