-- ===== src/Monitor/Detects.antt =====
-- The loop of internal/controller/monitor/engine.go confirms the death of a dead primary.
use mha_go.Base.{
  ℕ, ◌+◌, true, false, leb, Text, List, [], ◌∷◌, ◌++◌, length, if◌then◌else◌, some, Result, ok, err,
  ◌≡◌, refl, ap, ◌∙◌, arith, All,
}
use mha_go.Domain.Spec.{ClusterSpec, NodeSpec}
use mha_go.Domain.View.{ClusterView}
use mha_go.Monitor.Engine.{
  MonitorPhase, healthy, suspect, secondary_check, reconfirm_topology, dead_confirmed, Answers,
  Watch, watch_of, node_spec_by_id, run_secondary_checks, step, reconfirmed, rounds,
}
use mha_go.Monitor.Justified.{IsLost, not_discovered, not_alive}

-- A round in which the probe of the node fails.
abbrev pub IsDown : NodeSpec → Answers → Type 0
IsDown primary a = (e : Text) × (a.probe primary ≡ some e)

-- The two phases in which the primary is probed.
pub data IsProbing : MonitorPhase → Type 0 where
  when_healthy : IsProbing healthy
  when_suspect : IsProbing suspect

module _ (spec : ClusterSpec) (threshold : ℕ) (view : ClusterView) (primary : NodeSpec)
    (configured : node_spec_by_id spec view.primary_id ≡ some primary) where
  step-IsDown :
      (phase : MonitorPhase) (n : ℕ) (a : Answers)
      → IsProbing phase
      → IsDown primary a
      → step spec threshold a (watch_of phase n view)
        ≡ watch_of (if leb threshold (n + 1) then secondary_check else suspect) (n + 1) view
  unfolding step
  step-IsDown healthy n a when_healthy d = rw configured (rw d.1 refl)
  step-IsDown suspect n a when_suspect d = rw configured (rw d.1 refl)
  step-IsDown secondary_check n a p d = elim p [ ]
  step-IsDown reconfirm_topology n a p d = elim p [ ]
  step-IsDown dead_confirmed n a p d = elim p [ ]

  step-unseen :
      (n : ℕ) (a : Answers)
      → run_secondary_checks spec a view ≡ false
      → step spec threshold a (watch_of secondary_check n view) ≡ watch_of reconfirm_topology n view
  unfolding step
  step-unseen n a e = rw e refl

  step-reconfirm :
      (n : ℕ) (a : Answers)
      → step spec threshold a (watch_of reconfirm_topology n view)
        ≡ reconfirmed (watch_of reconfirm_topology n view) a.discovered
  unfolding step
  step-reconfirm n a = refl

  probes_reach :
      (a : Answers) (l : List Answers) (phase : MonitorPhase) (n : ℕ)
      → IsProbing phase
      → IsDown primary a
      → All (IsDown primary) l
      → n + 1 + length l ≡ threshold
      → rounds spec threshold (a ∷ l) (watch_of phase n view)
        ≡ watch_of secondary_check threshold view
  unfolding rounds
  probes_reach a [] phase n p d h e =
      let full : leb threshold (n + 1) ≡ true = ground arith in
      let same : n + 1 ≡ threshold = omega arith in
      step-IsDown phase n a p d
      ∙ (ap (λ b. watch_of (if b then secondary_check else suspect) (n + 1) view) full
          ∙ ap (λ k. watch_of secondary_check k view) same)
  probes_reach a (b ∷ l) phase n p d h e =
      let open_still : leb threshold (n + 1) ≡ false = ground arith in
      ap (rounds spec threshold (b ∷ l)) (
        step-IsDown phase n a p d
        ∙ ap (λ t. watch_of (if t then secondary_check else suspect) (n + 1) view) open_still)
      ∙ probes_reach b l suspect (n + 1) when_suspect h.0 h.1 (omega arith)

  reconfirmed-IsLost :
      (w : Watch) (d : Result Text ClusterView)
      → IsLost spec threshold d
      → (reconfirmed w d).phase ≡ dead_confirmed
  reconfirmed-IsLost w (err e) not_discovered = refl
  reconfirmed-IsLost w (ok v) (not_alive g) = rw g refl

  rounds-append :
      (l : List Answers) (a b : Answers) (w : Watch)
      → rounds spec threshold (l ++ (a ∷ b ∷ [])) w
        ≡ step spec threshold b (step spec threshold a (rounds spec threshold l w))
  unfolding rounds
  rounds-append [] a b w = refl
  rounds-append (c ∷ l) a b w = rounds-append l a b (step spec threshold c w)

  -- From a healthy phase on, as many probes of the configured primary in a row as the threshold asks
  -- for, all of them in vain, a round in which no other node sees the primary, and a discovery that
  -- fails or finds no primary or a dead one confirm the death.
  pub dead_primary_detected :
      (a : Answers) (l : List Answers) (checked found : Answers)
      → IsDown primary a
      → All (IsDown primary) l
      → 1 + length l ≡ threshold
      → run_secondary_checks spec checked view ≡ false
      → IsLost spec threshold found.discovered
      → (rounds spec threshold ((a ∷ l) ++ (checked ∷ found ∷ [])) (watch_of healthy 0 view)).phase
        ≡ dead_confirmed
  dead_primary_detected a l checked found d h n unseen lost =
      ap (λ w. w.phase)
        (rounds-append (a ∷ l) checked found (watch_of healthy 0 view)
          ∙ (ap (λ w. step spec threshold found (step spec threshold checked w))
                (probes_reach a l healthy 0 when_healthy d h (omega arith))
              ∙ (ap (step spec threshold found) (step-unseen threshold checked unseen)
                  ∙ step-reconfirm threshold found)))
      ∙ reconfirmed-IsLost (watch_of reconfirm_topology threshold view) found.discovered lost
