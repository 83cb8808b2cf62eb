-- ===== src/Merkle/Agree.antt =====
-- The commitment that a delegator computes, against the one that the circuit computes.
use native.Mathlib.Nat.{one-le-pow}
use dac_from_legacy_credenti.Prelude.{
  ℕ, ◌^◌, ◌≤◌, ◌<◌, ◌≡◌, refl, sym, ap, ◌∙◌, Bool, true, false, ◌||◌, not, List, [], ◌∷◌, map, All,
  All-map, length, length-map, ◌==◌, arith,
}
use dac_from_legacy_credenti.Prelude.Outcome.{ok}
use dac_from_legacy_credenti.Plonky2.Hash.{Hasher}
use dac_from_legacy_credenti.Credential.Attribute.{Attribute, len_bytes}
use dac_from_legacy_credenti.Credential.Attribute.Marker.{len_bytes-empty_marker}
use dac_from_legacy_credenti.Merkle.{
  same_length, first_length, mask_slots, attribute_to_hashed_leaf, attributes_to_leaves,
  compute_merkle_root, is_power_of_two, is_power_of_two_complete, merkle_root_from_leaves,
}
use dac_from_legacy_credenti.Merkle.InCircuit.{root_of_leaves}
use dac_from_legacy_credenti.Merkle.InCircuit.Root.{root_of_leaves-merkle_tree_root}
use dac_from_legacy_credenti.Merkle.Mask.{masked_leaves, attribute_to_hashed_leaf-mask_slots}

-- All attributes have one length.
abbrev pub OfLength : ℕ → List Attribute → Type 0
OfLength n = All (λ a. len_bytes a ≡ n)

OfLength-same_length :
    (n : ℕ) (attrs : List Attribute) → OfLength n attrs → same_length n attrs ≡ true
unfolding same_length
OfLength-same_length n [] a = refl
OfLength-same_length n (x ∷ attrs) a = ground (arith, OfLength-same_length n attrs a.1)

mask_slots-OfLength :
    (n : ℕ) (attrs : List Attribute) (bits : List Bool)
    → OfLength n attrs
    → OfLength n (mask_slots attrs bits)
unfolding mask_slots
mask_slots-OfLength n [] bits a = tt
mask_slots-OfLength n (x ∷ attrs) [] a = tt
mask_slots-OfLength n (x ∷ attrs) (true ∷ bits) a = (a.0, mask_slots-OfLength n attrs bits a.1)
mask_slots-OfLength n (x ∷ attrs) (false ∷ bits) a =
    (len_bytes-empty_marker (len_bytes x) ∙ a.0, mask_slots-OfLength n attrs bits a.1)

length-mask_slots :
    (attrs : List Attribute) (bits : List Bool)
    → length bits ≡ length attrs
    → length (mask_slots attrs bits) ≡ length attrs
unfolding mask_slots
length-mask_slots [] bits e = refl
length-mask_slots (x ∷ attrs) [] e = absurd (omega arith)
length-mask_slots (x ∷ attrs) (keep ∷ bits) e =
    omega (arith, length-mask_slots attrs bits (omega arith))

OfLength-first_length :
    (n : ℕ) (attrs : List Attribute) → 0 < length attrs → OfLength n attrs → first_length attrs ≡ n
unfolding first_length
OfLength-first_length n [] some a = absurd (omega arith)
OfLength-first_length n (x ∷ attrs) some a = a.0

module _ (h : Hasher) where
  compute_merkle_root-merkle_tree_root :
      (k n : ℕ) (attrs : List Attribute)
      → length attrs ≡ 2 ^ k
      → OfLength n attrs
      → compute_merkle_root h attrs
        ≡ ok (h.merkle_tree_root (map (attribute_to_hashed_leaf h) attrs))
  unfolding compute_merkle_root attributes_to_leaves
  compute_merkle_root-merkle_tree_root k n attrs e a =
      let some : 1 ≤ length attrs = omega (arith, one-le-pow k 2 (omega arith)) in
      let power : is_power_of_two (length attrs) ≡ true = rw e (is_power_of_two_complete k) in
      let first = OfLength-first_length n attrs some a in
      let same : same_length (first_length attrs) attrs ≡ true =
        ap (λ m. same_length m attrs) first ∙ OfLength-same_length n attrs a in
      let guard : (length attrs == 0 || not (is_power_of_two (length attrs))) ≡ false =
        ground arith in
      rw (guard, same) refl

  -- For a power of two of attributes of one positive length, the root that the delegator computes
  -- of the masked attributes is the root that the circuit computes of the masked leaves.
  pub compute_merkle_root-root_of_leaves :
      (k n : ℕ) (attrs : List Attribute) (bits : List Bool)
      → length attrs ≡ 2 ^ k
      → length bits ≡ length attrs
      → 0 < n
      → OfLength n attrs
      → compute_merkle_root h (mask_slots attrs bits)
        ≡ ok (root_of_leaves h (masked_leaves (map (attribute_to_hashed_leaf h) attrs) bits))
  unfolding merkle_root_from_leaves
  compute_merkle_root-root_of_leaves k n attrs bits e eb pos a =
      let count = length-mask_slots attrs bits eb ∙ e in
      let leaves = map (attribute_to_hashed_leaf h) (mask_slots attrs bits) in
      compute_merkle_root-merkle_tree_root k n (mask_slots attrs bits) count
        (mask_slots-OfLength n attrs bits a)
      ∙ ap ok (
          sym
            (root_of_leaves-merkle_tree_root h k leaves
              (length-map (attribute_to_hashed_leaf h) (mask_slots attrs bits) ∙ count)).1)
      ∙ ap (λ l. ok (root_of_leaves h l))
          (attribute_to_hashed_leaf-mask_slots h attrs bits (
            All-map (λ x. len_bytes x ≡ n) (λ x. 0 < len_bytes x) attrs (λ x l. omega (arith, l))
              a))
