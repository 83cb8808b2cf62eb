-- ===== src/Layout/Counts.antt =====
-- `ensure_valid_attribute_counts` of src/circuits/layout.rs.
use dac_from_legacy_credenti.Prelude.{ℕ, ◌≤◌, ◌≡◌, ◌↔◌, true, not, ltb, ◌==◌, arith, ◌^◌}
use dac_from_legacy_credenti.Prelude.Outcome.{
  Result, ok, no_attributes, not_power_of_two, capacity_too_small, ◌>>◌, ensure,
}
use dac_from_legacy_credenti.Merkle.{is_power_of_two, is_power_of_two-pow, is_power_of_two_complete}

pub ensure_valid_attribute_counts : ℕ → ℕ → Result (Unit {0})
ensure_valid_attribute_counts num_attributes num_max_attributes = do
  ensure (not (num_attributes == 0)) no_attributes
  ensure (is_power_of_two num_max_attributes) not_power_of_two
  ensure (not (ltb num_max_attributes num_attributes)) capacity_too_small

-- The counts are accepted exactly when there is an attribute, and the capacity is a power of two
-- that holds them all.
pub ensure_valid_attribute_counts_iff :
    (n m : ℕ)
    → (ensure_valid_attribute_counts n m ≡ ok tt) ↔ ((1 ≤ n) × (n ≤ m) × ((k : ℕ) × (m ≡ 2 ^ k)))
unfolding ensure_valid_attribute_counts
ensure_valid_attribute_counts_iff n m = (forward, backward)
  where
    forward :
        ensure_valid_attribute_counts n m ≡ ok tt → (1 ≤ n) × (n ≤ m) × ((k : ℕ) × (m ≡ 2 ^ k))
    forward h =
        let power : is_power_of_two m ≡ true = ground arith in
        (ground arith, ground arith, is_power_of_two-pow m power)

    backward :
        (1 ≤ n) × (n ≤ m) × ((k : ℕ) × (m ≡ 2 ^ k)) → ensure_valid_attribute_counts n m ≡ ok tt
    backward (one, fits, (k, e)) =
        let power : is_power_of_two m ≡ true = rw e (is_power_of_two_complete k) in ground arith
