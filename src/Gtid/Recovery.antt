-- ===== src/Gtid/Recovery.antt =====
-- The recovery half of internal/replication/gtidset.go: how fresh a candidate is, what it misses,
-- and the salvage actions that follow.
use mha_go.Base.{
  ℤ, pos, ◌+ℤ◌, ◌-ℤ◌, Bool, true, false, not, ◌&&◌, ◌||◌, Text, codes, text_eq, List, [], ◌∷◌,
  Option, none, some, is_nil, is_blank, if◌then◌else◌, sort_texts, add_text, ok, err,
}
use mha_go.Domain.Spec.{SalvagePolicy, is_replica, is_availability_first}
use mha_go.Domain.View.{NodeState, ClusterView, is_dead}
use mha_go.Domain.Plan.{recover_from_old_primary, recover_from_replica, RecoveryGap, SalvageAction}
use mha_go.Gtid.Sets.{GtidSet}
use mha_go.Gtid.Sets
use mha_go.Gtid.Parse.{parse}
use mha_go.Gtid.Print.{subtract_texts}

-- The guard `err != nil || set.IsEmpty()`: the set, if it parses and is not empty.
unfoldable pub nonempty_set : Text → Option GtidSet
unfolding Sets.is_empty
nonempty_set raw = elim (parse raw) [
  | err e ↦ none
  | ok s ↦ if Sets.is_empty s then none else some s
]

-- The `continue` test of both loops over the nodes: only other replicas that are not dead count.
unfoldable pub is_other_live_replica : NodeState → NodeState → Bool
is_other_live_replica candidate n =
    not (text_eq n.id candidate.id || not (is_replica n.role) || is_dead n.health)

-- The `switch` of `CandidateFreshnessScore`.
unfoldable pub compare_freshness : GtidSet → GtidSet → ℤ → ℤ
unfolding Sets.contains
compare_freshness candidate_set other_set score =
    if Sets.contains candidate_set other_set
    then score +ℤ pos 25
    else if Sets.contains other_set candidate_set
    then score -ℤ pos 25
    else score +ℤ pos 5

abbrev pub freshness_of : GtidSet → Option GtidSet → ℤ → ℤ
freshness_of candidate_set none score = score
freshness_of candidate_set (some other_set) score = compare_freshness candidate_set other_set score

unfoldable pub freshness_loop : NodeState → GtidSet → List NodeState → ℤ → ℤ
unfolding is_other_live_replica
freshness_loop candidate candidate_set [] score = score
freshness_loop candidate candidate_set (n ∷ nodes) score =
    freshness_loop candidate candidate_set nodes (
      if is_other_live_replica candidate n
      then freshness_of candidate_set (nonempty_set n.gtid_executed) score
      else score)

-- `CandidateFreshnessScore`
unfoldable pub candidate_freshness_score : NodeState → List NodeState → ℤ
unfolding freshness_loop
candidate_freshness_score candidate nodes = elim (nonempty_set candidate.gtid_executed) [
  | none ↦ pos 0
  | some candidate_set ↦ freshness_loop candidate candidate_set nodes (pos 0)
]

pub record RecoverySummary : Type 0 where
  pub candidate_freshness_score : ℤ
  pub candidate_most_advanced : Bool
  pub missing_from_primary_known : Bool
  pub missing_from_primary_set : Text
  pub recovery_gaps : List RecoveryGap
  pub salvage_actions : List SalvageAction
  pub suggested_donor_ids : List Text

-- What a surviving node has and the candidate lacks: `none` where the loop goes on without a gap.
unfoldable pub gap_of : NodeState → NodeState → Option RecoveryGap
unfolding is_other_live_replica
gap_of candidate n =
    if not (is_other_live_replica candidate n) || is_blank n.gtid_executed
    then none
    else elim (subtract_texts n.gtid_executed candidate.gtid_executed) [
      | err e ↦ none
      | ok missing ↦
          if is_nil missing
          then none
          else some (record {
            source_node_id = n.id;
            missing_gtid_set = missing;
            missing_gtid_known = true;
          })
    ]

abbrev pub cons_option {ℓ} : {A : Type ℓ} → Option A → List A → List A
cons_option none l = l
cons_option (some a) l = a ∷ l

unfoldable pub recovery_gaps_of : NodeState → List NodeState → List RecoveryGap
unfolding gap_of
recovery_gaps_of candidate [] = []
recovery_gaps_of candidate (n ∷ nodes) =
    cons_option (gap_of candidate n) (recovery_gaps_of candidate nodes)

-- The keys of `donorSet` after the loop.
unfoldable pub gap_donors : List RecoveryGap → List Text
gap_donors [] = []
gap_donors (g ∷ gaps) = add_text g.source_node_id (gap_donors gaps)

-- `missing` and `known` of the old primary; (false, "") where its GTID set is blank or unreadable.
unfoldable pub missing_from_primary : NodeState → NodeState → Bool × Text
missing_from_primary old_primary candidate =
    if is_blank old_primary.gtid_executed
    then (false, [])
    else elim (subtract_texts old_primary.gtid_executed candidate.gtid_executed) [
      | err e ↦ (false, [])
      | ok missing ↦ (true, missing)
    ]

unfoldable pub gap_actions : NodeState → Bool → List RecoveryGap → List SalvageAction
gap_actions candidate required [] = []
gap_actions candidate required (g ∷ gaps) =
    let rest = gap_actions candidate required gaps in
    if not g.missing_gtid_known || is_nil g.missing_gtid_set
    then rest
    else record {
      kind = recover_from_replica;
      donor_node_id = g.source_node_id;
      target_node_id = candidate.id;
      missing_gtid_set = g.missing_gtid_set;
      required = required;
      reason = codes "candidate is behind another surviving replica";
    }
      ∷ rest

-- `BuildSalvageActions`
unfoldable pub build_salvage_actions :
    NodeState → NodeState → Bool → Text → List RecoveryGap → SalvagePolicy → List SalvageAction
unfolding gap_actions
build_salvage_actions old_primary candidate known missing gaps policy =
    let required = not (is_availability_first policy) in
    let from_replicas = gap_actions candidate required gaps in
    if known && not (is_nil missing)
    then record {
      kind = recover_from_old_primary;
      donor_node_id = old_primary.id;
      target_node_id = candidate.id;
      missing_gtid_set = missing;
      required = required;
      reason =
          codes "candidate is missing GTIDs that only the old primary is known to have executed";
    }
      ∷ from_replicas
    else from_replicas

-- `BuildRecoverySummary`
unfoldable pub build_recovery_summary :
    ClusterView → NodeState → NodeState → SalvagePolicy → RecoverySummary
unfolding recovery_gaps_of gap_donors missing_from_primary build_salvage_actions
build_recovery_summary view old_primary candidate policy =
    let (known, missing) = missing_from_primary old_primary candidate in
    let gaps = recovery_gaps_of candidate view.nodes in
    let primary_ahead = known && not (is_nil missing) in
    let donors = gap_donors gaps in
    record {
      candidate_freshness_score = candidate_freshness_score candidate view.nodes;
      candidate_most_advanced = is_nil gaps && not primary_ahead;
      missing_from_primary_known = known;
      missing_from_primary_set = missing;
      recovery_gaps = gaps;
      salvage_actions = build_salvage_actions old_primary candidate known missing gaps policy;
      suggested_donor_ids = sort_texts (
          if primary_ahead && not (is_nil old_primary.id)
          then add_text old_primary.id donors
          else donors);
    }
