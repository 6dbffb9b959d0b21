-- ===== src/Runner/Failover/Handled.antt =====
-- What becomes of each replica in `RepointReplicas` of internal/controller/failover/mysql_runner.go.
use mha_go.Base.{
  true, Text, text_eq, text_eq_sound, has_text, any, List, [], ◌∷◌, ◌++◌, Option, none, some,
  if◌then◌else◌, Result, ok, err, In, In-append_left, In-append_right, ◌≡◌, refl, sym, subst, ◌⊎◌,
  inl, inr, Bool-cases, arith,
}
use mha_go.Base.Lists.{head, tail}
use mha_go.Domain.Spec.{ClusterSpec, NodeSpec, replication_password_ref_or_default}
use mha_go.Domain.Plan.{FailoverPlan}
use mha_go.Domain.Inspection.{node_spec_by_id}
use mha_go.Runner.{
  SqlOp, SqlError, open_db, repoint_to_source, resolve_password, SqlLog, Servers, ask,
}
use mha_go.Runner.Grows.{Did}
use mha_go.Runner.Failover.{
  append_if_missing, Repointing, is_dead_old_primary, after_repoint, after_open, repoint_node,
  repoint_nodes, repoint_replicas, replicas_to_repoint,
}

has_text-In : (s : Text) (l : List Text) → has_text s l ≡ true → In s l
unfolding has_text any
has_text-In s [] h = cc
has_text-In s (t ∷ l) h = elim (Bool-cases (text_eq s t)) [
  | inl e ↦ subst (λ x. In s (x ∷ l)) (text_eq_sound s t e) head
  | inr e ↦ tail (has_text-In s l (ground arith))
]

append_if_missing-In : (s : Text) (l : List Text) → In s (append_if_missing l s)
unfolding append_if_missing
append_if_missing-In s l = elim (Bool-cases (has_text s l)) [
  | inl e ↦ rw e (has_text-In s l e)
  | inr e ↦ rw e (In-append_right l head)
]

append_if_missing-keeps :
    (s : Text) (l : List Text) {a : Text} → In a l → In a (append_if_missing l s)
unfolding append_if_missing
append_if_missing-keeps s l i = elim (Bool-cases (has_text s l)) [
  | inl e ↦ rw e i
  | inr e ↦ rw e (In-append_left _ i)
]

-- Nothing that was skipped or done before is lost.
pub record Keeps (r r' : Repointing) : Type 0 where
  pub skipped : (a : Text) → In a r.0 → In a r'.0
  pub done : (op : SqlOp) (a : Text) → Did r.1 op a → Did r'.1 op a

module _ (servers : Servers) (spec : ClusterSpec) (plan : FailoverPlan) (candidate : NodeSpec)
    (password : Text) where
  -- The replica is repointed, listed as skipped, or the dead old primary.
  abbrev pub IsHandled : Text → NodeSpec → Repointing → Type 0
  IsHandled id ns r =
      ((a : Text) × Did r.1 (repoint_to_source ns candidate password) a)
      ⊎ (In id r.0 ⊎ (is_dead_old_primary servers spec plan id ≡ true))

  Keeps-IsHandled :
      (id : Text) (ns : NodeSpec) (r r' : Repointing)
      → Keeps r r'
      → IsHandled id ns r
      → IsHandled id ns r'
  Keeps-IsHandled id ns r r' keeps (inl (a, did)) = inl (a, keeps.done _ a did)
  Keeps-IsHandled id ns r r' keeps (inr (inl i)) = inr (inl (keeps.skipped id i))
  Keeps-IsHandled id ns r r' keeps (inr (inr e)) = inr (inr e)

  after_repoint-Keeps :
      (id : Text) (skipped : List Text) (t u : SqlLog) (answer : Result SqlError Text)
      → Keeps
          (skipped, t)
          (after_repoint servers spec plan candidate password id skipped (t ++ u) answer)
  after_repoint-Keeps id skipped t u (err e) = record {
    skipped = λ a i. append_if_missing-keeps id skipped i;
    done = λ op a did. In-append_left u did;
  }
  after_repoint-Keeps id skipped t u (ok b) = record {
    skipped = λ a i. i;
    done = λ op a did. In-append_left u did;
  }

  Keeps-refl : (r : Repointing) → Keeps r r
  Keeps-refl r = record { skipped = λ a i. i; done = λ op a did. did }

  Keeps-trans : (r r' r'' : Repointing) → Keeps r r' → Keeps r' r'' → Keeps r r''
  Keeps-trans r r' r'' k k' = record {
    skipped = λ a i. k'.skipped a (k.skipped a i);
    done = λ op a did. k'.done op a (k.done op a did);
  }

  Keeps-append : (skipped : List Text) (t u : SqlLog) → Keeps (skipped, t) (skipped, t ++ u)
  Keeps-append skipped t u = record { skipped = λ a i. i; done = λ op a did. In-append_left u did }

  after_open-Keeps :
      (id : Text) (ns : NodeSpec) (skipped : List Text) (t : SqlLog) (answer : Result SqlError Text)
      → Keeps (skipped, t) (after_open servers spec plan candidate password id ns skipped t answer)
  after_open-Keeps id ns skipped t (err e) = record {
    skipped = λ a i. append_if_missing-keeps id skipped i;
    done = λ op a did. did;
  }
  after_open-Keeps id ns skipped t (ok b) =
      after_repoint-Keeps id skipped t
        ((
          repoint_to_source ns candidate password,
          servers t (repoint_to_source ns candidate password),
        )
          ∷ [])
        (servers t (repoint_to_source ns candidate password))

  after_repoint-IsHandled :
      (id : Text) (ns : NodeSpec) (skipped : List Text) (t : SqlLog) (answer : Result SqlError Text)
      → IsHandled id ns (
          after_repoint servers spec plan candidate password id skipped
            (t ++ ((repoint_to_source ns candidate password, answer) ∷ []))
            answer)
  after_repoint-IsHandled id ns skipped t (err e) = inr (inl (append_if_missing-In id skipped))
  after_repoint-IsHandled id ns skipped t (ok b) = inl (b, In-append_right t head)

  after_open-IsHandled :
      (id : Text) (ns : NodeSpec) (skipped : List Text) (t : SqlLog) (answer : Result SqlError Text)
      → IsHandled id ns (after_open servers spec plan candidate password id ns skipped t answer)
  after_open-IsHandled id ns skipped t (err e) = inr (inl (append_if_missing-In id skipped))
  after_open-IsHandled id ns skipped t (ok b) =
      after_repoint-IsHandled id ns skipped t (servers t (repoint_to_source ns candidate password))

  abbrev node_round : Text → Option NodeSpec → Repointing → Repointing
  node_round = repoint_node servers spec plan candidate password

  repoint_node-Keeps :
      (id : Text) (found : Option NodeSpec) (r : Repointing) → Keeps r (node_round id found r)
  unfolding repoint_node
  repoint_node-Keeps id none (skipped, t) = Keeps-refl (skipped, t)
  repoint_node-Keeps id (some ns) (skipped, t) =
      elim (Bool-cases (is_dead_old_primary servers spec plan id)) [
        | inl e ↦ rw e (Keeps-refl (skipped, t))
        | inr e ↦ rw e (
            Keeps-trans (skipped, t) (skipped, t ++ ((open_db ns, servers t (open_db ns)) ∷ [])) _
              (Keeps-append skipped t ((open_db ns, servers t (open_db ns)) ∷ []))
              (after_open-Keeps id ns skipped _ (servers t (open_db ns))))
      ]

  repoint_node-IsHandled :
      (id : Text) (ns : NodeSpec) (found : Option NodeSpec) (r : Repointing)
      → found ≡ some ns
      → IsHandled id ns (node_round id found r)
  unfolding repoint_node
  repoint_node-IsHandled id ns none r h = cc
  repoint_node-IsHandled id ns (some m) (skipped, t) h =
      let same : m ≡ ns = ground arith in
      elim (Bool-cases (is_dead_old_primary servers spec plan id)) [
        | inl e ↦ inr (inr e)
        | inr e ↦
            let opened =
              after_open servers spec plan candidate password id m skipped
                (t ++ ((open_db m, servers t (open_db m)) ∷ [])) (servers t (open_db m)) in
            subst (λ b. IsHandled id ns (if b then (skipped, t) else opened)) (sym e)
              (subst (λ (n : NodeSpec). IsHandled id n opened) same
                (after_open-IsHandled id m skipped _ (servers t (open_db m))))
      ]

  abbrev loop : List Text → Repointing → Repointing
  loop = repoint_nodes servers spec plan candidate password

  repoint_nodes-Keeps : (ids : List Text) (r : Repointing) → Keeps r (loop ids r)
  unfolding repoint_nodes
  repoint_nodes-Keeps [] r = Keeps-refl r
  repoint_nodes-Keeps (id ∷ ids) r =
      Keeps-trans r (node_round id (node_spec_by_id spec id) r) _
        (repoint_node-Keeps id (node_spec_by_id spec id) r)
        (repoint_nodes-Keeps ids (node_round id (node_spec_by_id spec id) r))

  repoint_nodes-IsHandled :
      (ids : List Text) (id : Text) (ns : NodeSpec) (r : Repointing)
      → In id ids
      → node_spec_by_id spec id ≡ some ns
      → IsHandled id ns (loop ids r)
  unfolding repoint_nodes
  repoint_nodes-IsHandled [] id ns r i e = elim i [ ]
  repoint_nodes-IsHandled (id ∷ ids) x ns r head e =
      Keeps-IsHandled id ns (node_round id (node_spec_by_id spec id) r) _
        (repoint_nodes-Keeps ids (node_round id (node_spec_by_id spec id) r))
        (repoint_node-IsHandled id ns (node_spec_by_id spec id) r e)
  repoint_nodes-IsHandled (x ∷ ids) id ns r (tail i) e =
      repoint_nodes-IsHandled ids id ns (node_round x (node_spec_by_id spec x) r) i e

-- Where the candidate is a node of the configuration and its replication password can be resolved,
-- the repointing returns no error, whatever the replicas answer; and each replica of the plan (or,
-- where the plan has no list, each node of the configuration that has to be repointed) that is a node of the configuration has then been repointed to the candidate without an error, is
-- in the returned list of skipped replicas, or is the old primary and dead.
pub repoint_replicas-IsHandled :
    (servers : Servers) (spec : ClusterSpec) (plan : FailoverPlan) (t : SqlLog)
    {candidate : NodeSpec} {password : Text}
    → node_spec_by_id spec plan.candidate.id ≡ some candidate
    → servers t (resolve_password (replication_password_ref_or_default candidate.sql)) ≡ ok password
    → (skipped : List Text) × ((repoint_replicas servers spec plan t).0 ≡ ok skipped)
      × ((id : Text) (ns : NodeSpec)
          → In id (replicas_to_repoint spec plan)
          → node_spec_by_id spec id ≡ some ns
          → IsHandled servers spec plan candidate password id ns
              (skipped, (repoint_replicas servers spec plan t).1))
unfolding repoint_replicas ask
repoint_replicas-IsHandled servers spec plan t {candidate} {password} found resolved = rw found (
    rw resolved (
      (
        _,
        refl,
        λ id ns i e.
            repoint_nodes-IsHandled servers spec plan candidate password
              (replicas_to_repoint spec plan) id ns _ i e,
      )))
