-- ===== src/Plonky2/Field.antt =====
-- The field `F: RichField` and the gadgets of `CircuitBuilder` that the circuits call. A field
-- element is its canonical representative, a number below `order`.
use dac_from_legacy_credenti.Prelude.{
  ℕ, ◌+◌, ◌-◌, ◌*◌, ◌%◌, ◌^◌, ◌<◌, ◌≡◌, ◌≢◌, ◌↔◌, ◌⊎◌, Bool, true, false, List, get_or, length,
}

pub record Builder : Type 0 where
  -- `F::ORDER`, a prime above the range of `u32`
  pub order : ℕ
  pub u32_lt_order : 2 ^ 32 < order
  -- `builder.add`, `builder.sub`, `builder.mul` and `F::inverse`
  pub add : ℕ → ℕ → ℕ
  pub sub : ℕ → ℕ → ℕ
  pub mul : ℕ → ℕ → ℕ
  pub inverse : ℕ → ℕ
  pub add_lem : (a b : ℕ) → add a b ≡ (a + b) % order
  pub sub_lem : (a b : ℕ) → a < order → b < order → sub a b ≡ (a + order - b) % order
  pub mul_lem : (a b : ℕ) → mul a b ≡ (a * b) % order
  pub mul_domain : (a b : ℕ) → a < order → b < order → mul a b ≡ 0 → (a ≡ 0) ⊎ (b ≡ 0)
  pub inverse_bound : (a : ℕ) → inverse a < order
  pub mul-inverse : (a : ℕ) → a < order → a ≢ 0 → mul a (inverse a) ≡ 1
  -- `builder.range_check(x, bits)`
  pub range_check : ℕ → ℕ → Bool
  pub range_check_iff : (x bits : ℕ) → (range_check x bits ≡ true) ↔ (x < 2 ^ bits)
  -- `builder.is_equal` and `builder.select`, on a `BoolTarget`
  pub is_equal : ℕ → ℕ → Bool
  pub is_equal_iff : (a b : ℕ) → (is_equal a b ≡ true) ↔ (a ≡ b)
  pub select : Bool → ℕ → ℕ → ℕ
  pub select_true : (a b : ℕ) → select true a b ≡ a
  pub select_false : (a b : ℕ) → select false a b ≡ b
  -- `builder.random_access(index, table)`, for an index within the table
  pub random_access : ℕ → List ℕ → ℕ
  pub random_access_lem :
      (i : ℕ) (table : List ℕ) → i < length table → random_access i table ≡ get_or table i 0
