-- ===== src/Plonky2/Hash.antt =====
-- The hash `H: Hasher` (Poseidon): four field elements from any number of them.
use dac_from_legacy_credenti.Prelude.{ℕ, ◌^◌, ◌≤◌, ◌≡◌, List, [], ◌∷◌, ◌++◌, length, resize}

-- `NUM_HASH_OUT_ELTS`
abbrev pub num_hash_out_elts : ℕ
num_hash_out_elts = 4

pub record Hasher : Type 0 where
  -- `hash_n_to_hash_no_pad`, the digest's `elements`
  pub hash_no_pad : List ℕ → List ℕ
  pub length-hash_no_pad : (xs : List ℕ) → length (hash_no_pad xs) ≡ num_hash_out_elts
  -- `hash_or_noop`: up to four elements are their own digest, padded by zeros
  pub hash_or_noop : List ℕ → List ℕ
  pub length-hash_or_noop : (xs : List ℕ) → length (hash_or_noop xs) ≡ num_hash_out_elts
  pub hash_or_noop_short :
      (xs : List ℕ)
      → length xs ≤ num_hash_out_elts
      → hash_or_noop xs ≡ resize num_hash_out_elts 0 xs
  -- `MerkleTree::new(leaves, 0).cap.0[0]`: a leaf is `hash_or_noop`ed, and two halves of equal
  -- size are joined by hashing the two roots
  pub merkle_tree_root : List (List ℕ) → List ℕ
  pub merkle_tree_root_leaf : (leaf : List ℕ) → merkle_tree_root (leaf ∷ []) ≡ hash_or_noop leaf
  pub merkle_tree_root_node :
      (k : ℕ) (left right : List (List ℕ))
      → length left ≡ length right
      → length left ≡ 2 ^ k
      → merkle_tree_root (left ++ right)
        ≡ hash_no_pad (merkle_tree_root left ++ merkle_tree_root right)
