-- ===== src/Capability.antt =====
-- internal/capability/set.go: the supported version series and their capabilities.
mod Tests
use mha_go.Base.{
  Bool, true, false, Text, codes, is_nil, trim_space, to_lower, has_prefix, text_eq, if◌then◌else◌,
  ◌++◌, List, [], ◌∷◌, Result, ok, err, ◌>>=◌, ◌≡◌, ◌∙◌, ◌↔◌, ap, has_prefix_sound, refl, sym,
  arith, ◌⊎◌, inl, inr, Bool-cases,
}
use mha_go.Base.Errors.{test-eq-ok, return-eq-ok, ok-injective, behind, behind_true, >>=-eq-ok}
use mha_go.Domain.View.{CapabilitySet}

pub data VersionError : Type 0 where
  version_unset : VersionError
  unsupported_version unsupported_normalized : Text → VersionError

unfoldable pub series_84 : Text
series_84 = codes "8.4"

unfoldable pub series_97 : Text
series_97 = codes "9.7"

-- `NormalizeVersionSeries` behind the trimming.
unfoldable pub series_of : Text → Text → Result VersionError Text
unfolding has_prefix series_84 series_97
series_of raw value =
    if is_nil value
    then err version_unset
    else if has_prefix value (codes "8.4")
    then ok series_84
    else if has_prefix value (codes "9.7")
    then ok series_97
    else err (unsupported_version raw)

-- `NormalizeVersionSeries`
unfoldable pub normalize_version_series : Text → Result VersionError Text
unfolding series_of to_lower trim_space
normalize_version_series raw = series_of raw (trim_space (to_lower raw))

abbrev pub full_set : CapabilitySet
full_set = record {
  has_gtid = true;
  has_auto_position = true;
  has_super_read_only = true;
  has_semi_sync = true;
  has_perf_schema_replication = true;
  has_clone_plugin = true;
  supports_replication_channels = true;
  supports_dynamic_privileges = true;
  supports_read_only_fence = true;
}

-- `BaselineForVersionSeries`
unfoldable pub baseline_for_version_series : Text → Result VersionError CapabilitySet
unfolding normalize_version_series text_eq
baseline_for_version_series series = do
  normalized ← normalize_version_series series
  (if text_eq normalized series_84
      then ok full_set
      else if text_eq normalized series_97
      then ok full_set
      else err (unsupported_normalized normalized))

-- What a version series is normalized to: a supported series that it begins with.
abbrev pub IsSeries : Text → Text → Type 0
IsSeries value s = ((s ≡ series_84) ⊎ (s ≡ series_97)) × (rest : Text) × (value ≡ s ++ rest)

series_of-IsSeries : (raw value : Text) {s : Text} → series_of raw value ≡ ok s → IsSeries value s
unfolding series_of
series_of-IsSeries raw value {s} h =
    let (_, h') = test-eq-ok (is_nil value) version_unset _ h in
    elim (Bool-cases (has_prefix value (codes "8.4"))) [
      | inl p ↦
          let e : series_84 ≡ s = ok-injective (behind_true _ _ _ p h') in
          let (rest, r) = has_prefix_sound value (codes "8.4") p in
          (inl (sym e), rest, r ∙ ap (λ t. t ++ rest) (unfold series_84 in e))
      | inr p ↦
          let h'' = behind _ _ _ p h' in
          elim (Bool-cases (has_prefix value (codes "9.7"))) [
            | inl q ↦
                let e : series_97 ≡ s = ok-injective (behind_true _ _ _ q h'') in
                let (rest, r) = has_prefix_sound value (codes "9.7") q in
                (inr (sym e), rest, r ∙ ap (λ t. t ++ rest) (unfold series_97 in e))
            | inr q ↦ cc (behind _ _ _ q h'')
          ]
    ]

IsSeries-series_of : (raw value s : Text) → IsSeries value s → series_of raw value ≡ ok s
unfolding series_of has_prefix series_84 series_97
IsSeries-series_of raw value s (inl e, rest, r) = rw r (rw e refl)
IsSeries-series_of raw value s (inr e, rest, r) = rw r (rw e refl)

baseline-accepted :
    (raw : Text) {c : CapabilitySet}
    → baseline_for_version_series raw ≡ ok c
    → (c ≡ full_set) × (s : Text) × (normalize_version_series raw ≡ ok s)
unfolding baseline_for_version_series
baseline-accepted raw h =
    let (s, e, h') = >>=-eq-ok (normalize_version_series raw) _ h in
    elim (return-eq-ok (text_eq s series_84) full_set _ h') [
      | inl full ↦ (sym full, s, e)
      | inr h'' ↦ elim (return-eq-ok (text_eq s series_97) full_set _ h'') [
        | inl full ↦ (sym full, s, e)
        | inr failed ↦ cc
      ]
    ]

accepted-baseline :
    (raw s : Text)
    → normalize_version_series raw ≡ ok s
    → baseline_for_version_series raw ≡ ok full_set
unfolding baseline_for_version_series
accepted-baseline raw s h =
    let cases =
      (series_of-IsSeries raw (trim_space (to_lower raw))
        (unfold normalize_version_series in h)).0 in
    elim cases [ inl e ↦ rw h (rw e refl) | inr e ↦ rw h (rw e refl) ]

-- A version series is accepted exactly if, in lower case and with no white space around it, it begins
-- with a supported series, 8.4 or 9.7, and it is then normalized to this series; the baseline of a
-- version series is given exactly if it is accepted, with all capabilities.
pub normalize_version_series_lem :
    (raw : Text)
    → ((s : Text) → (normalize_version_series raw ≡ ok s) ↔ IsSeries (trim_space (to_lower raw)) s)
      × ((c : CapabilitySet)
          → (baseline_for_version_series raw ≡ ok c)
            ↔ ((c ≡ full_set) × (s : Text) × (normalize_version_series raw ≡ ok s)))
normalize_version_series_lem raw = (
  λ s.
      unfold normalize_version_series in
      (
        series_of-IsSeries raw (trim_space (to_lower raw)),
        IsSeries-series_of raw (trim_space (to_lower raw)) s,
      ),
  λ c. (
    baseline-accepted raw,
    λ accepted. accepted-baseline raw accepted.1 accepted.2 ∙ ap ok (sym accepted.0),
  ),
)
