-- ===== src/Config/Valid.antt =====
-- What holds of each cluster that `fileSpec.toDomain` of internal/config/spec.go returns.
use mha_go.Base.{
  ◌≤◌, pos, leb_ℤ, ltb_ℤ, eqb_ℤ, Bool, true, false, ◌||◌, Text, codes, text_eq, is_nil, is_blank,
  trim_space, length, All, if◌then◌else◌, ok, err, ◌≡◌, refl, subst, ◌⊎◌,
}
use mha_go.Base.Errors.{ok-injective}
use mha_go.Domain.Spec.{
  TopologyKind, SemiSyncPolicy, SalvagePolicy, NodeRole, is_primary, is_replica, is_observer,
  TopologySpec, FencingStepSpec, NodeSpec, ClusterSpec,
}
use mha_go.Capability.{series_84, series_97}
use mha_go.Config.{FileTopologySpec}
use mha_go.Config.Parts.{
  value_or, topology_unsupported, invalid_semi_sync, invalid_salvage, invalid_role,
  topology_renamed, topology_reserved, topology_of, semi_sync_of, salvage_of, role_of,
  primary_count,
}

abbrev pub known : NodeRole → Bool
known r = is_primary r || (is_replica r || is_observer r)

-- A node of a cluster.
pub record IsNode (n : NodeSpec) : Type 0 where
  pub id_set : is_blank n.id ≡ false
  pub host_set : is_blank n.host ≡ false
  pub port_set : eqb_ℤ n.port (pos 0) ≡ false
  pub role_known : known n.expected_role ≡ true
  pub series_known : (n.version_series ≡ series_84) ⊎ (n.version_series ≡ series_97)
  pub credentials : is_blank n.sql.replication_user ≡ is_blank n.sql.replication_password_ref

abbrev pub is_unset_salvage : SalvagePolicy → Bool
is_unset_salvage SalvagePolicy.unset = true
is_unset_salvage _ = false

abbrev pub is_unset_semi_sync : SemiSyncPolicy → Bool
is_unset_semi_sync SemiSyncPolicy.unset = true
is_unset_semi_sync _ = false

pub record IsCluster (spec : ClusterSpec) : Type 0 where
  pub name_set : is_blank spec.name ≡ false
  pub kind : spec.topology.kind ≡ TopologyKind.mysql_replication_single_primary
  pub threshold : leb_ℤ spec.controller.monitor.failure_threshold (pos 0) ≡ false
  pub semi_sync_set : is_unset_semi_sync spec.replication.semi_sync.policy ≡ false
  pub wait_count : ltb_ℤ spec.replication.semi_sync.wait_for_replica_count (pos 0) ≡ false
  pub salvage_set : is_unset_salvage spec.replication.salvage.policy ≡ false
  pub steps : All (λ (s : FencingStepSpec). is_nil s.kind ≡ false) spec.fencing.steps
  pub two_nodes : 2 ≤ length spec.nodes
  pub one_primary : primary_count spec.nodes ≡ 1
  pub nodes : All IsNode spec.nodes

-- What holds of each value that a chain of tests returns holds of its result.
chosen :
    {E A : Type 0} (P : A → Type 0) (b c d : Bool) (x y z : A) (e : E) {r : A}
    → P x
    → P y
    → P z
    → (if b then ok x else if c then ok y else if d then ok z else err e) ≡ ok r
    → P r
chosen P true c d x y z e px py pz h = subst P (ok-injective h) px
chosen P false true d x y z e px py pz h = subst P (ok-injective h) py
chosen P false false true x y z e px py pz h = subst P (ok-injective h) pz
chosen P false false false x y z e px py pz h = cc

only :
    {E A : Type 0} (P : A → Type 0) (b c d : Bool) (x : A) (e e' e'' : E) {r : A}
    → P x
    → (if b then ok x else if c then err e else if d then err e' else err e'') ≡ ok r
    → P r
only P true c d x e e' e'' px h = subst P (ok-injective h) px
only P false true d x e e' e'' px h = cc
only P false false true x e e' e'' px h = cc
only P false false false x e e' e'' px h = cc

pub topology_of-kind :
    (f : FileTopologySpec) {s : TopologySpec}
    → topology_of f ≡ ok s
    → s.kind ≡ TopologyKind.mysql_replication_single_primary
unfolding topology_of
topology_of-kind f h =
    let kind = trim_space f.kind in
    only (λ (s : TopologySpec). s.kind ≡ TopologyKind.mysql_replication_single_primary)
      (is_nil kind || text_eq kind (codes "mysql-replication-single-primary"))
      (text_eq kind (codes "async-single-primary"))
      (text_eq kind (codes "group-replication-single-primary")
        || (text_eq kind (codes "group-replication-multi-primary")
            || text_eq kind (codes "innodb-cluster")))
      record {
        kind = TopologyKind.mysql_replication_single_primary;
        single_writer = value_or true f.single_writer;
        allow_cascading_replicas = f.allow_cascading_replicas;
      }
      (topology_renamed kind) (topology_reserved kind) (topology_unsupported kind) refl h

pub semi_sync_of-set :
    (t : Text) {p : SemiSyncPolicy} → semi_sync_of t ≡ ok p → is_unset_semi_sync p ≡ false
unfolding semi_sync_of
semi_sync_of-set t h =
    chosen (λ p. is_unset_semi_sync p ≡ false) (is_nil t || text_eq t (codes "preferred"))
      (text_eq t (codes "disabled")) (text_eq t (codes "required")) SemiSyncPolicy.preferred
      SemiSyncPolicy.disabled SemiSyncPolicy.required (invalid_semi_sync t) refl refl refl h

pub salvage_of-set :
    (t : Text) {p : SalvagePolicy} → salvage_of t ≡ ok p → is_unset_salvage p ≡ false
unfolding salvage_of
salvage_of-set t h =
    chosen (λ p. is_unset_salvage p ≡ false) (is_nil t || text_eq t (codes "salvage-if-possible"))
      (text_eq t (codes "strict")) (text_eq t (codes "availability-first"))
      SalvagePolicy.if_possible SalvagePolicy.strict SalvagePolicy.availability_first
      (invalid_salvage t) refl refl refl h

pub role_of-known : (id t : Text) {r : NodeRole} → role_of id t ≡ ok r → known r ≡ true
unfolding role_of
role_of-known id t h =
    chosen (λ r. known r ≡ true) (is_nil t || text_eq t (codes "replica"))
      (text_eq t (codes "primary")) (text_eq t (codes "observer")) NodeRole.replica NodeRole.primary
      NodeRole.observer (invalid_role id t) refl refl refl h
