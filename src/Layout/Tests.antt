-- ===== src/Layout/Tests.antt =====
-- The counts of the credential at hand: three attributes, of a capacity of four.
use dac_from_legacy_credenti.Prelude.{ℕ, ◌≤◌, ◌≡◌, ◌^◌, ◌↔◌}
use dac_from_legacy_credenti.Prelude.Outcome.{ok}
use dac_from_legacy_credenti.Layout.{
  ensure_valid_attribute_counts, ensure_valid_attribute_counts_iff,
}

ensure_valid_attribute_counts_iff_example :
    (ensure_valid_attribute_counts 3 4 ≡ ok tt) ↔ ((1 ≤ 3) × (3 ≤ 4) × ((k : ℕ) × (4 ≡ 2 ^ k)))
ensure_valid_attribute_counts_iff_example = ensure_valid_attribute_counts_iff 3 4
