-- ===== src/Merkle/InCircuit/Root.antt =====
-- The root that a circuit computes level by level, against the library's Merkle tree.
use mathlib.Core.List.{map-append}
use native.Mathlib.Nat.{pow-suc, one-le-pow}
use dac_from_legacy_credenti.Prelude.{
  ℕ, zero, suc, ◌+◌, ◌*◌, ◌%◌, ◌^◌, ◌≤◌, ◌<◌, ◌≡◌, refl, sym, ap, ◌∙◌, true, List, [], ◌∷◌, ◌++◌,
  map, length, take, drop, length-map, length-take, length-drop, take-append-drop, lt→ltb, arith,
}
use dac_from_legacy_credenti.Plonky2.Hash.{Hasher}
use dac_from_legacy_credenti.Plonky2.Circuit.{holds, value}
use dac_from_legacy_credenti.Merkle.Power.{is_power_of_two, is_power_of_two_complete}
use dac_from_legacy_credenti.Merkle.InCircuit.{
  pair_level, fold_levels, root_of_leaves, merkle_root_from_leaves,
}

pub double-pow : (k : ℕ) → 2 ^ suc k ≡ 2 ^ k + 2 ^ k
double-pow k = pow-suc 2 k ∙ omega arith

module _ (hash : List ℕ → List ℕ) where
  -- `k` passes of the loop.
  unfoldable pub passes : ℕ → List (List ℕ) → List (List ℕ)
  passes zero level = level
  passes (suc k) level = passes k (pair_level hash level)

  pub length-pair_level :
      (l : List (List ℕ)) → length l % 2 ≡ 0 → length l ≡ 2 * length (pair_level hash l)
  unfolding pair_level
  length-pair_level [] h = refl
  length-pair_level (a ∷ []) h = absurd (omega arith)
  length-pair_level (a ∷ b ∷ l) h = omega (arith, length-pair_level l (omega arith))

  pair_level-append :
      (l r : List (List ℕ))
      → length l % 2 ≡ 0
      → pair_level hash (l ++ r) ≡ pair_level hash l ++ pair_level hash r
  unfolding pair_level
  pair_level-append [] r h = refl
  pair_level-append (a ∷ []) r h = absurd (omega arith)
  pair_level-append (a ∷ b ∷ l) r h =
      ap (λ t. hash (a ++ b) ∷ t) (pair_level-append l r (omega arith))

  -- Passes act on each half on its own, as long as the halves have pairs left.
  passes-append :
      (k : ℕ) (l r : List (List ℕ))
      → length l ≡ 2 ^ k
      → passes k (l ++ r) ≡ passes k l ++ passes k r
  unfolding passes
  passes-append zero l r e = refl
  passes-append (suc k) l r e =
      let even : length l % 2 ≡ 0 = omega (arith, double-pow k) in
      rw (pair_level-append l r even) (
        passes-append k (pair_level hash l) (pair_level hash r)
          (omega (arith, double-pow k, length-pair_level l even)))

  passes-last : (k : ℕ) (l : List (List ℕ)) → passes (suc k) l ≡ pair_level hash (passes k l)
  unfolding passes
  passes-last zero l = refl
  passes-last (suc k) l = passes-last k (pair_level hash l)

  -- The loop ends by its own test after `k` passes over `2 ^ k` digests.
  fold_levels-passes :
      (fuel k : ℕ) (l : List (List ℕ))
      → length l ≡ 2 ^ k
      → k ≤ fuel
      → fold_levels hash fuel l ≡ passes k l
  unfolding fold_levels passes
  fold_levels-passes zero zero l e h = refl
  fold_levels-passes zero (suc k) l e h = absurd (omega arith)
  fold_levels-passes (suc fuel) zero l e h = rw e refl
  fold_levels-passes (suc fuel) (suc k) l e h =
      let even : length l % 2 ≡ 0 = omega (arith, double-pow k) in
      let more : 1 < length l = omega (arith, double-pow k, one-le-pow k 2 (omega arith)) in
      rw (lt→ltb 1 (length l) more) (
        fold_levels-passes fuel k (pair_level hash l)
          (omega (arith, double-pow k, length-pair_level l even)) (omega arith))

le-pow : (k : ℕ) → k ≤ 2 ^ k
le-pow zero = omega arith
le-pow (suc k) = omega (arith, le-pow k, double-pow k, one-le-pow k 2 (omega arith))

split_half :
    {A : Type 0} (n : ℕ) (l : List A)
    → length l ≡ n + n
    → (length (take n l) ≡ n) × (length (drop n l) ≡ n) × (take n l ++ drop n l ≡ l)
split_half n l e =
    (omega (arith, length-take n l), omega (arith, length-drop n l), take-append-drop n l)

module _ (h : Hasher) where
  passes-root :
      (k : ℕ) (leaves : List (List ℕ))
      → length leaves ≡ 2 ^ k
      → passes h.hash_no_pad k (map h.hash_or_noop leaves) ≡ h.merkle_tree_root leaves ∷ []
  unfolding passes pair_level
  passes-root zero [] e = absurd (omega arith)
  passes-root zero (leaf ∷ []) e = rw (h.merkle_tree_root_leaf leaf)
  passes-root zero (a ∷ b ∷ l) e = absurd (omega arith)
  passes-root (suc k) leaves e =
      let n = 2 ^ k in
      let l = take n leaves in
      let r = drop n leaves in
      let (ll, lr, whole) = split_half n leaves (e ∙ double-pow k) in
      rw (
        ← whole,
        map-append h.hash_or_noop l r,
        passes-last h.hash_no_pad k (map h.hash_or_noop l ++ map h.hash_or_noop r),
        passes-append h.hash_no_pad k (map h.hash_or_noop l) (map h.hash_or_noop r)
            (length-map h.hash_or_noop l ∙ ll),
        passes-root k l ll,
        passes-root k r lr,
        h.merkle_tree_root_node k l r (ll ∙ sym lr) ll,
      )

  -- Over any power of two of leaves, the in-circuit root is the library's Merkle root, and the
  -- loop's fuel suffices.
  pub root_of_leaves-merkle_tree_root :
      (k : ℕ) (leaves : List (List ℕ))
      → length leaves ≡ 2 ^ k
      → (holds (merkle_root_from_leaves h leaves) ≡ true)
        × (value (merkle_root_from_leaves h leaves) ≡ h.merkle_tree_root leaves)
  unfolding merkle_root_from_leaves root_of_leaves
  root_of_leaves-merkle_tree_root k leaves e =
      let one : 1 ≤ length leaves = omega (arith, one-le-pow k 2 (omega arith)) in
      let fuel : k ≤ length leaves = omega (arith, le-pow k) in
      let power : is_power_of_two (length leaves) ≡ true = rw e (is_power_of_two_complete k) in
      let level =
        fold_levels-passes h.hash_no_pad (length leaves) k (map h.hash_or_noop leaves)
          (length-map h.hash_or_noop leaves ∙ e) fuel in
      (ground arith, rw (level, passes-root k leaves e) refl)

  -- What is left after `k` passes over `2 ^ k` leaves is the root alone.
  pub passes-root_of_leaves :
      (k : ℕ) (leaves : List (List ℕ))
      → length leaves ≡ 2 ^ k
      → passes h.hash_no_pad k (map h.hash_or_noop leaves) ≡ root_of_leaves h leaves ∷ []
  unfolding merkle_root_from_leaves
  passes-root_of_leaves k leaves e =
      passes-root k leaves e ∙ ap (λ x. x ∷ []) (sym (root_of_leaves-merkle_tree_root k leaves e).1)
