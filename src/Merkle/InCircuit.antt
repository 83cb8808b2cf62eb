-- ===== src/Merkle/InCircuit.antt =====
-- `merkle_root_from_leaves` of src/utils/merkle.rs: the root as a circuit computes it.
pub mod Root
pub mod Binding
use dac_from_legacy_credenti.Prelude.{
  ℕ, zero, suc, ◌&&◌, not, List, [], ◌∷◌, ◌++◌, map, length, get_or, ltb, ◌==◌, if◌then◌else◌,
}
use dac_from_legacy_credenti.Plonky2.Hash.{Hasher}
use dac_from_legacy_credenti.Plonky2.Circuit.{Circuit, pure, assert, ◌>>◌}
use dac_from_legacy_credenti.Merkle.Power.{is_power_of_two}

-- One pass of the `while` loop: `level.chunks(2)`, each pair hashed. After the assertion of a
-- power of two no chunk is odd.
unfoldable pub pair_level : (List ℕ → List ℕ) → List (List ℕ) → List (List ℕ)
pair_level hash [] = []
pair_level hash (odd ∷ []) = odd ∷ []
pair_level hash (left ∷ right ∷ rest) = hash (left ++ right) ∷ pair_level hash rest

-- `while level.len() > 1`, on fuel.
unfoldable pub fold_levels : (List ℕ → List ℕ) → ℕ → List (List ℕ) → List (List ℕ)
fold_levels hash zero level = level
fold_levels hash (suc fuel) level =
    let next = fold_levels hash fuel (pair_level hash level) in
    if ltb 1 (length level) then next else level

module _ (h : Hasher) where
  -- The root that the circuit computes: the leaves hashed, then level after level of pairs. The
  -- number of leaves is fuel enough.
  unfoldable pub root_of_leaves : List (List ℕ) → List ℕ
  root_of_leaves leaves =
      get_or (fold_levels h.hash_no_pad (length leaves) (map h.hash_or_noop leaves)) 0 []

  unfoldable pub merkle_root_from_leaves : List (List ℕ) → Circuit (List ℕ)
  merkle_root_from_leaves leaves =
      assert (not (length leaves == 0) && is_power_of_two (length leaves))
      >> pure (root_of_leaves leaves)
