-- ===== src/Config/Nodes.antt =====
-- The loop over the nodes of `fileSpec.toDomain` in internal/config/spec.go.
use mha_go.Base.{
  suc, ◌≤◌, ℤ, pos, eqb_ℤ, Bool, true, false, ltb, ◌==◌, is_blank, trim_space, List, [], ◌∷◌,
  length, All, if◌then◌else◌, ok, >>=-eq-ok, map_err, ◌≡◌, refl, sym, ap, subst, ◌∙◌, arith, inl,
  inr, Bool-cases,
}
use mha_go.Base.Errors.{map_err-eq-ok, ok-injective, test-eq-ok}
use mha_go.Domain.Spec.{NodeRole, NodeSpec}
use mha_go.Capability.{normalize_version_series, normalize_version_series_lem}
use mha_go.Config.{FileNodeSpec}
use mha_go.Config.Parts.{
  node_id_unset, many_primaries, invalid_version, host_unset, credentials_apart, role_of, node_of,
  node_with, nodes_of, primary_count, first_primary, with_primary, differ, nonzero_or,
}
use mha_go.Config.Valid.{IsNode, role_of-known}

differ-false : (a b : Bool) → differ a b ≡ false → a ≡ b
differ-false true b h = ground arith
differ-false false b h = ground arith

nonzero_or-nonzero :
    (default n : ℤ) → eqb_ℤ default (pos 0) ≡ false → eqb_ℤ (nonzero_or default n) (pos 0) ≡ false
nonzero_or-nonzero default n h = ground arith

pub node_of-IsNode : (n : FileNodeSpec) {s : NodeSpec} → node_of n ≡ ok s → IsNode s
unfolding node_of
node_of-IsNode n {s} h =
    let (series, e, h1) =
      >>=-eq-ok (map_err (invalid_version n.id) (normalize_version_series n.version_series)) _ h in
    let (role, e', h2) = >>=-eq-ok (role_of n.id (trim_space n.expected_role)) _ h1 in
    let (id_set, h3) = test-eq-ok (is_blank n.id) node_id_unset _ h2 in
    let (host_set, h4) = test-eq-ok (is_blank n.host) (host_unset n.id) _ h3 in
    let (together, h5) = test-eq-ok _ (credentials_apart n.id) _ h4 in
    subst IsNode {x = node_with n series role} (ok-injective h5) record {
      id_set = id_set;
      host_set = host_set;
      port_set = nonzero_or-nonzero (pos 3306) n.port refl;
      role_known = role_of-known n.id (trim_space n.expected_role) e';
      series_known =
          (((normalize_version_series_lem n.version_series).0 series).0 (map_err-eq-ok _ _ e)).0;
      credentials = differ-false _ _ together;
    }

pub nodes_of-IsNode :
    (l : List FileNodeSpec) {s : List NodeSpec}
    → nodes_of l ≡ ok s
    → All IsNode s × (length s ≡ length l)
unfolding nodes_of
nodes_of-IsNode [] h = subst (λ s. All IsNode s × (length s ≡ 0)) (ok-injective h) (tt, refl)
nodes_of-IsNode (n ∷ l) h =
    let (node, e, h1) = >>=-eq-ok (node_of n) _ h in
    let (rest, e', h2) = >>=-eq-ok (nodes_of l) _ h1 in
    let (all, same) = nodes_of-IsNode l e' in
    subst (λ s. All IsNode s × (length s ≡ length (n ∷ l))) (ok-injective h2)
      ((node_of-IsNode n e, all), ap suc same)

one_of : (n : NodeSpec) → IsNode n → IsNode (record n { expected_role = NodeRole.primary })
one_of n h = record {
  id_set = h.id_set;
  host_set = h.host_set;
  port_set = h.port_set;
  role_known = refl;
  series_known = h.series_known;
  credentials = h.credentials;
}

primary_count-first_primary :
    (n : NodeSpec) (l : List NodeSpec)
    → primary_count (n ∷ l) ≡ 0
    → primary_count (first_primary (n ∷ l)) ≡ 1
unfolding primary_count
primary_count-first_primary n l h = ground arith

-- What the step behind the loop makes of at least two nodes.
pub with_primary-one :
    (l : List NodeSpec) {s : List NodeSpec}
    → with_primary l ≡ ok s
    → 2 ≤ length l
    → All IsNode l
    → (primary_count s ≡ 1) × All IsNode s × (2 ≤ length s)
unfolding with_primary
with_primary-one [] h two all = absurd (omega arith)
with_primary-one (n ∷ l) {s} h two all =
    let (few, h') = test-eq-ok (ltb 1 (primary_count (n ∷ l))) many_primaries _ h in
    elim (Bool-cases (primary_count (n ∷ l) == 0)) [
      | inl zero_primaries ↦
          subst (λ x. (primary_count x ≡ 1) × All IsNode x × (2 ≤ length x))
            (ap (λ b. if b then first_primary (n ∷ l) else n ∷ l) (sym zero_primaries)
              ∙ ok-injective h')
            (primary_count-first_primary n l (ground arith), (one_of n all.0, all.1), two)
      | inr some_primary ↦
          subst (λ x. (primary_count x ≡ 1) × All IsNode x × (2 ≤ length x))
            (ap (λ b. if b then first_primary (n ∷ l) else n ∷ l) (sym some_primary)
              ∙ ok-injective h')
            (ground arith, all, two)
    ]
