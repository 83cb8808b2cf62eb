-- ===== src/Layout.antt =====
-- src/circuits/layout.rs: where the public inputs of a base circuit stand.
mod Counts
mod Tests
pub use Counts.*
use dac_from_legacy_credenti.Prelude.{ℕ, ◌+◌, ◌-◌, ◌^◌}

pub record BasePublicInputLayout : Type 0 where
  pub issuer_pk_pi_start : ℕ
  pub issuer_pk_pi_len : ℕ
  pub com_pi_start : ℕ
  pub com_pi_len : ℕ
  pub level_pi_idx : ℕ
  pub max_level_pi_idx : ℕ
  pub num_attributes : ℕ
  pub num_max_attributes : ℕ
  pub attribute_u32_limbs : ℕ
  pub attribute_len_bytes : ℕ

unfoldable pub base_pi_count : BasePublicInputLayout → ℕ
base_pi_count layout = layout.max_level_pi_idx + 1

abbrev pub max_level_bits : ℕ
max_level_bits = 8

abbrev pub level_unbounded : ℕ
level_unbounded = 2 ^ max_level_bits - 1
