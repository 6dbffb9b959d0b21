-- ===== src/Capability/Tests.antt =====
-- A version of MySQL as the configuration may give it.
use mha_go.Base.{Text, codes, ok, ◌≡◌, ◌↔◌, refl, trim_space, to_lower}
use mha_go.Domain.View.{CapabilitySet}
use mha_go.Capability.{
  IsSeries, series_84, normalize_version_series, baseline_for_version_series, full_set,
  normalize_version_series_lem,
}

normalized : normalize_version_series (codes " 8.4.3-LTS") ≡ ok series_84
unfolding normalize_version_series
normalized = refl

normalize_version_series_lem_example :
    ((s : Text)
      → (normalize_version_series (codes " 8.4.3-LTS") ≡ ok s)
        ↔ IsSeries (trim_space (to_lower (codes " 8.4.3-LTS"))) s)
    × ((c : CapabilitySet)
        → (baseline_for_version_series (codes " 8.4.3-LTS") ≡ ok c)
          ↔ ((c ≡ full_set) × (s : Text) × (normalize_version_series (codes " 8.4.3-LTS") ≡ ok s)))
normalize_version_series_lem_example = normalize_version_series_lem (codes " 8.4.3-LTS")
