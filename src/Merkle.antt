-- ===== src/Merkle.antt =====
-- src/utils/merkle.rs: the commitment to the attributes, outside a circuit and inside one.
mod Power
pub mod InCircuit
pub mod Mask
pub mod Agree
mod Tests
unfoldable pub use Power.*
unfoldable pub use InCircuit.{merkle_root_from_leaves}
use dac_from_legacy_credenti.Prelude.{
  ℕ, Bool, true, ◌&&◌, ◌||◌, not, List, [], ◌∷◌, map, length, resize, replicate, ltb, ◌==◌,
  if◌then◌else◌,
}
use dac_from_legacy_credenti.Prelude.Outcome.{
  Result, ok, not_power_of_two, length_mismatch, empty_attributes, bad_capacity, bitmap_mismatch,
  ◌>>=◌, ◌>>◌, ensure,
}
use dac_from_legacy_credenti.Plonky2.Hash.{Hasher, num_hash_out_elts}
use dac_from_legacy_credenti.Credential.Attribute.{
  Attribute, to_u32_limbs_le, empty_marker, len_bytes, is_empty,
}

-- A limb is below `2 ^ 32`, so it is its own field element.
unfoldable pub attribute_to_field_elements : Attribute → List ℕ
attribute_to_field_elements attr = to_u32_limbs_le attr

-- The four zeros to which every empty marker hashes.
abbrev pub zero_leaf : List ℕ
zero_leaf = replicate num_hash_out_elts 0

-- `attrs.len() == 0 || …` counts from 0; the test of the loop over the attributes.
pub same_length : ℕ → List Attribute → Bool
same_length n [] = true
same_length n (a ∷ as') = len_bytes a == n && same_length n as'

-- The first attribute's length, for a list known not to be empty.
pub first_length : List Attribute → ℕ
first_length [] = 0
first_length (a ∷ as') = len_bytes a

-- `iter().zip(…)` with the masking step of each slot.
pub mask_slots : List Attribute → List Bool → List Attribute
mask_slots (a ∷ as') (keep ∷ bits) =
    (if keep then a else empty_marker (len_bytes a)) ∷ mask_slots as' bits
mask_slots as' bits = []

pub mask_attributes : List Attribute → List Bool → Result (List Attribute)
mask_attributes attrs bitmap = do
  ensure (length attrs == length bitmap) bitmap_mismatch
  ok (mask_slots attrs bitmap)

pub pad_attributes : List Attribute → ℕ → Result (List Attribute)
pad_attributes attrs num_max_attributes = do
  ensure (not (length attrs == 0)) empty_attributes
  ensure (not (ltb num_max_attributes (length attrs) || not (is_power_of_two num_max_attributes)))
      bad_capacity
  ok (resize num_max_attributes (empty_marker (first_length attrs)) attrs)

module _ (h : Hasher) where
  unfoldable pub attribute_to_hashed_leaf : Attribute → List ℕ
  attribute_to_hashed_leaf attr =
      if is_empty attr then zero_leaf else h.hash_or_noop (attribute_to_field_elements attr)

  pub attributes_to_leaves : List Attribute → Result (List (List ℕ))
  attributes_to_leaves attrs = do
    ensure (not (length attrs == 0 || not (is_power_of_two (length attrs)))) not_power_of_two
    ensure (same_length (first_length attrs) attrs) length_mismatch
    ok (map attribute_to_hashed_leaf attrs)

  pub compute_merkle_root : List Attribute → Result (List ℕ)
  compute_merkle_root attrs = do leaves ← attributes_to_leaves attrs; ok (h.merkle_tree_root leaves)
