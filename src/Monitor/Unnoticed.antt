-- ===== src/Monitor/Unnoticed.antt =====
-- What `runSecondaryChecks` of internal/controller/monitor/engine.go has asked when no node sees the
-- primary.
use mha_go.Base.{
  Bool, true, false, ◌||◌, Text, is_nil, List, [], ◌∷◌, some, ok, keep, All, Bool-cases, inl, inr,
  ◌⊎◌, ◌≡◌, sym, ap, ◌∙◌, arith, if◌then◌else◌, subst,
}
use mha_go.Domain.Spec.{ClusterSpec, NodeSpec, SecondaryCheckSpec, is_replica}
use mha_go.Domain.View.{ClusterView, NodeState, is_dead, replica_nodes}
use mha_go.Monitor.Engine.{
  Answers, node_spec_by_id, sees, node_sees, replicas_see, observers_see, secondary_behind,
  run_secondary_checks,
}

-- What holds of the elements that are kept holds of each that passes the test.
All-keep_or :
    {A : Type 0} (P : A → Type 0) (p : A → Bool) (l : List A)
    → All P (keep p l)
    → All (λ x. (p x ≡ false) ⊎ P x) l
unfolding keep
All-keep_or P p [] h = tt
All-keep_or P p (x ∷ l) h = elim (Bool-cases (p x)) [
  | inl e ↦
      let h' = subst (λ b. All P (if b then x ∷ keep p l else keep p l)) e h in
      (inr h'.0, All-keep_or P p l h'.1)
  | inr e ↦
      (inl e, All-keep_or P p l (subst (λ b. All P (if b then x ∷ keep p l else keep p l)) e h))
]

module _ (spec : ClusterSpec) (a : Answers) (primary : NodeSpec) where
  -- The node with this id in the configuration answers that it replicates from the primary.
  abbrev pub Sees : Text → Type 0
  Sees id =
      (n : NodeSpec) × (node_spec_by_id spec id ≡ some n)
      × (a.sees_source n primary.host primary.port ≡ ok true)

  -- Every replica of the view, unless it is dead, and every observer that is configured by its id
  -- does not see the primary: it is not in the configuration, cannot answer, or denies it.
  pub record IsUnnoticed (view : ClusterView) : Type 0 where
    pub by_replicas :
        All
          (λ r. (is_replica r.role ≡ false) ⊎ (is_dead r.health ≡ true) ⊎ (¬ Sees r.id))
          view.nodes
    pub by_observers :
        All
          (λ c. (is_nil c.observer_node ≡ true) ⊎ (¬ Sees c.observer_node))
          spec.controller.secondary_checks

  node_sees-Sees : (id : Text) → node_sees a primary (node_spec_by_id spec id) ≡ false → ¬ Sees id
  node_sees-Sees id h (n, found, saw) =
      cc (sym (ap sees saw) ∙ (ap (node_sees a primary) (sym found) ∙ h))

  replicas_see-none :
      (l : List NodeState)
      → replicas_see spec a primary l ≡ false
      → All (λ r. (is_dead r.health ≡ true) ⊎ (¬ Sees r.id)) l
  unfolding replicas_see
  replicas_see-none [] h = tt
  replicas_see-none (r ∷ l) h = elim (Bool-cases (is_dead r.health)) [
    | inl e ↦ (inl e, replicas_see-none l (ground arith))
    | inr e ↦ (inr (node_sees-Sees r.id (ground arith)), replicas_see-none l (ground arith))
  ]

  observers_see-none :
      (l : List SecondaryCheckSpec)
      → observers_see spec a primary l ≡ false
      → All (λ c. (is_nil c.observer_node ≡ true) ⊎ (¬ Sees c.observer_node)) l
  unfolding observers_see
  observers_see-none [] h = tt
  observers_see-none (c ∷ l) h = elim (Bool-cases (is_nil c.observer_node)) [
    | inl e ↦ (inl e, observers_see-none l (ground arith))
    | inr e ↦
        (inr (node_sees-Sees c.observer_node (ground arith)), observers_see-none l (ground arith))
  ]

  -- The secondary check fails only if everybody that is asked does not see the primary.
  pub run_secondary_checks-IsUnnoticed :
      (view : ClusterView)
      → node_spec_by_id spec view.primary_id ≡ some primary
      → run_secondary_checks spec a view ≡ false
      → IsUnnoticed view
  unfolding run_secondary_checks replica_nodes
  run_secondary_checks-IsUnnoticed view c h =
      let h' : (replicas_see spec a primary (replica_nodes view)
            || observers_see spec a primary spec.controller.secondary_checks)
          ≡ false =
        ap (secondary_behind spec a view) (sym c) ∙ h in
      record {
        by_replicas =
            All-keep_or (λ r. (is_dead r.health ≡ true) ⊎ (¬ Sees r.id)) (λ n. is_replica n.role)
              view.nodes (replicas_see-none (replica_nodes view) (ground arith));
        by_observers = observers_see-none spec.controller.secondary_checks (ground arith);
      }
