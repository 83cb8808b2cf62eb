-- ===== src/Merkle/Tests.antt =====
-- The theorems on commitments, at two leaves and two attributes.
use dac_from_legacy_credenti.Prelude.{
  ◌≡◌, refl, ◌⊎◌, true, false, List, [], ◌∷◌, map, All, ◌<◌, arith,
}
use dac_from_legacy_credenti.Plonky2.Circuit.{holds, value}
use dac_from_legacy_credenti.Credential.Attribute.{Attribute, len_bytes}
use dac_from_legacy_credenti.Merkle.{merkle_root_from_leaves, attribute_to_hashed_leaf, mask_slots}
use dac_from_legacy_credenti.Merkle.InCircuit.Root.{root_of_leaves-merkle_tree_root}
use dac_from_legacy_credenti.Merkle.InCircuit.Binding.{Collision, root_of_leaves-binding}
use dac_from_legacy_credenti.Merkle.Mask.{masked_leaves, attribute_to_hashed_leaf-mask_slots}
use dac_from_legacy_credenti.Prelude.Outcome.{ok}
use dac_from_legacy_credenti.Merkle.{compute_merkle_root}
use dac_from_legacy_credenti.Merkle.InCircuit.{root_of_leaves}
use dac_from_legacy_credenti.Merkle.Agree.{OfLength, compute_merkle_root-root_of_leaves}
use dac_from_legacy_credenti.Sample.Hash.{toy}
use dac_from_legacy_credenti.Sample.Delegation.{leaves}

root_of_leaves-merkle_tree_root_example :
    (holds (merkle_root_from_leaves toy leaves) ≡ true)
    × (value (merkle_root_from_leaves toy leaves) ≡ toy.merkle_tree_root leaves)
root_of_leaves-merkle_tree_root_example = root_of_leaves-merkle_tree_root toy 1 leaves refl

root_of_leaves-binding_example : (leaves ≡ leaves) ⊎ Collision toy
root_of_leaves-binding_example =
    root_of_leaves-binding toy 1 leaves leaves (refl, (refl, tt)) (refl, (refl, tt)) refl refl refl

abbrev two : List Attribute
two = (record { bytes = 65 ∷ 66 ∷ 67 ∷ 68 ∷ [] }) ∷ (record { bytes = 0 ∷ 0 ∷ 0 ∷ 9 ∷ [] }) ∷ []

some_bytes : All (λ a. 0 < len_bytes a) two
unfolding len_bytes
some_bytes = (omega arith, (omega arith, tt))

attribute_to_hashed_leaf-mask_slots_example :
    map (attribute_to_hashed_leaf toy) (mask_slots two (true ∷ false ∷ []))
    ≡ masked_leaves (map (attribute_to_hashed_leaf toy) two) (true ∷ false ∷ [])
attribute_to_hashed_leaf-mask_slots_example =
    attribute_to_hashed_leaf-mask_slots toy two (true ∷ false ∷ []) some_bytes

two-OfLength : OfLength 4 two
unfolding len_bytes
two-OfLength = (refl, (refl, tt))

compute_merkle_root-root_of_leaves_example :
    compute_merkle_root toy (mask_slots two (true ∷ false ∷ []))
    ≡ ok (
        root_of_leaves toy
          (masked_leaves (map (attribute_to_hashed_leaf toy) two) (true ∷ false ∷ [])))
compute_merkle_root-root_of_leaves_example =
    compute_merkle_root-root_of_leaves toy 1 4 two (true ∷ false ∷ []) refl refl (omega arith)
      two-OfLength
