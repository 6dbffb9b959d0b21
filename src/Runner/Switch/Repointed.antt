-- ===== src/Runner/Switch/Repointed.antt =====
-- What `RepointReplicas` of internal/controller/switchover/actions.go has done when it returns no error.
use mha_go.Base.{
  true, Text, codes, List, [], ◌∷◌, keep-In, Option, none, some, In, ◌≡◌, ok, subst, arith,
}
use mha_go.Base.Lists.{head, tail}
use mha_go.Base.Order.Kept.{sort_texts-In, map-In}
use mha_go.Domain.Spec.{ClusterSpec, NodeSpec}
use mha_go.Domain.Switchover.{SwitchoverPlan}
use mha_go.Domain.Inspection.{node_spec_by_id, or_error-some}
use mha_go.Runner.{open_db, repoint_to_source, SqlLog, Servers, give, ask}
use mha_go.Runner.Grows.{
  Did, Grows, Did-Returns, Returns, returns_of, >>=-Returns, from-Returns, ask-Did, ask-Grows,
  give-Grows, >>=-Grows,
}
use mha_go.Runner.Switch.{
  repoint, repoint_known, repoint_ids, repoint_replicas, repoint_replica_node_ids, is_repointed,
  spec_of, source_password, connect_text, repoint_text,
}

module _ (servers : Servers) (spec : ClusterSpec) (plan : SwitchoverPlan) where
  module _ (candidate : NodeSpec) (password : Text) where
    repoint-Grows :
        (f g : Text → Text) (ns : NodeSpec)
        → Grows (repoint servers spec plan f g candidate password ns)
    unfolding repoint
    repoint-Grows f g ns = >>=-Grows (ask servers f (open_db ns)) _ (ask-Grows servers f _) (λ db.
        >>=-Grows (ask servers g (repoint_to_source ns candidate password)) _
          (ask-Grows servers g _) (λ repointed. give-Grows tt))

    repoint-Did :
        (f g : Text → Text) (ns : NodeSpec) (t : SqlLog) {x : Unit} {u : SqlLog}
        → Returns (repoint servers spec plan f g candidate password ns) t x u
        → (a : Text) × Did u (repoint_to_source ns candidate password) a
    unfolding repoint
    repoint-Did f g ns t h =
        let (db, t1, e1, h1) = >>=-Returns (ask servers f (open_db ns)) _ h in
        let (a, t2, e2, h2) =
          >>=-Returns (ask servers g (repoint_to_source ns candidate password)) _ h1 in
        (a, Did-Returns (give tt) (give-Grows tt) h2 (ask-Did servers g _ t1 e2))

    repoint_known-Grows :
        (id : Text) (found : Option NodeSpec)
        → Grows (repoint_known servers spec plan candidate password id found)
    repoint_known-Grows id none = give-Grows tt
    repoint_known-Grows id (some ns) =
        repoint-Grows (connect_text (codes "replica") id (codes " for repoint"))
          (repoint_text (codes "replica") id []) ns

    repoint_ids-Grows :
        (ids : List Text) → Grows (repoint_ids servers spec plan candidate password ids)
    unfolding repoint_ids
    repoint_ids-Grows [] = give-Grows tt
    repoint_ids-Grows (id ∷ ids) =
        >>=-Grows (repoint_known servers spec plan candidate password id (node_spec_by_id spec id))
          _ (repoint_known-Grows id (node_spec_by_id spec id)) (λ repointed. repoint_ids-Grows ids)

    repoint_known-Did :
        (id : Text) (found : Option NodeSpec) {ns : NodeSpec} (t : SqlLog) {x : Unit} {u : SqlLog}
        → found ≡ some ns
        → Returns (repoint_known servers spec plan candidate password id found) t x u
        → (a : Text) × Did u (repoint_to_source ns candidate password) a
    repoint_known-Did id none t e h = cc
    repoint_known-Did id (some m) {ns} t {x} {u} e h =
        let same : m ≡ ns = ground arith in
        subst (λ (n : NodeSpec). (a : Text) × Did u (repoint_to_source n candidate password) a) same
          (repoint-Did (connect_text (codes "replica") id (codes " for repoint"))
            (repoint_text (codes "replica") id []) m t h)

    repoint_ids-Did :
        (ids : List Text) {id : Text} {ns : NodeSpec} (t : SqlLog) {x : Unit} {u : SqlLog}
        → In id ids
        → node_spec_by_id spec id ≡ some ns
        → Returns (repoint_ids servers spec plan candidate password ids) t x u
        → (a : Text) × Did u (repoint_to_source ns candidate password) a
    unfolding repoint_ids
    repoint_ids-Did [] t i e h = elim i [ ]
    repoint_ids-Did (id ∷ ids) t head e h =
        let (x, t1, e1, h1) =
          >>=-Returns
            (repoint_known servers spec plan candidate password id (node_spec_by_id spec id)) _ h in
        let (a, did) = repoint_known-Did id (node_spec_by_id spec id) t e e1 in
        (
          a,
          Did-Returns (repoint_ids servers spec plan candidate password ids) (repoint_ids-Grows ids)
              h1 did,
        )
    repoint_ids-Did (id ∷ ids) t (tail i) e h =
        let (x, t1, e1, h1) =
          >>=-Returns
            (repoint_known servers spec plan candidate password id (node_spec_by_id spec id)) _ h in
        repoint_ids-Did ids t1 i e h1

  -- When the repointing of the replicas returns no error, each node of the configuration but the
  -- candidate, the original primary, the observers and those marked no_master (or the first node
  -- with its id) has been repointed to the candidate without an error.
  pub repoint_replicas_lem :
      (t : SqlLog) {x : Unit} (n : NodeSpec) {ns : NodeSpec}
      → (repoint_replicas servers spec plan t).0 ≡ ok x
      → In n spec.nodes
      → is_repointed plan.candidate.id plan.original_primary.id n ≡ true
      → node_spec_by_id spec n.id ≡ some ns
      → (candidate : NodeSpec) × (password : Text) × (a : Text) × (node_spec_by_id spec
            plan.candidate.id
          ≡ some candidate)
        × Did (repoint_replicas servers spec plan t).1 (repoint_to_source ns candidate password) a
  unfolding repoint_replicas repoint_replica_node_ids
  repoint_replicas_lem t n h i named found =
      let (candidate, t1, e1, h1) =
        >>=-Returns (spec_of servers spec plan plan.candidate.id (codes "candidate")) _
          (returns_of (repoint_replicas servers spec plan t) h) in
      let (password, t2, e2, h2) = >>=-Returns (source_password servers spec plan candidate) _ h1 in
      let (a, did) =
        repoint_ids-Did candidate password
          (repoint_replica_node_ids spec plan.candidate.id plan.original_primary.id) t2
          (sort_texts-In _ (
            map-In (λ (n : NodeSpec). n.id) _
              (keep-In (is_repointed plan.candidate.id plan.original_primary.id) spec.nodes i
                named)))
          found h2 in
      (candidate, password, a, or_error-some _ _ (from-Returns _ e1), did)
