-- ===== src/Merkle/Mask.antt =====
-- What masking does to the leaves of a commitment.
use dac_from_legacy_credenti.Prelude.{
  ℕ, suc, ◌≡◌, ◌<◌, ◌⊎◌, inl, inr, refl, ap, ap₂, ◌∙◌, Bool, true, false, List, [], ◌∷◌, map, All,
  length, if◌then◌else◌, arith,
}
use dac_from_legacy_credenti.Plonky2.Hash.{Hasher, num_hash_out_elts}
use dac_from_legacy_credenti.Credential.Attribute.{Attribute, empty_marker, len_bytes}
use dac_from_legacy_credenti.Credential.Attribute.Marker.{is_empty-empty_marker}
use dac_from_legacy_credenti.Merkle.{zero_leaf, mask_slots, attribute_to_hashed_leaf}

-- A slot that is kept stands, one that is dropped is the zero leaf.
abbrev pub masked_leaves : List (List ℕ) → List Bool → List (List ℕ)
masked_leaves (leaf ∷ leaves) (keep ∷ bits) =
    (if keep then leaf else zero_leaf) ∷ masked_leaves leaves bits
masked_leaves leaves bits = []

module _ (h : Hasher) where
  pub attribute_to_hashed_leaf-empty_marker :
      (n : ℕ) → 0 < n → attribute_to_hashed_leaf h (empty_marker n) ≡ zero_leaf
  unfolding attribute_to_hashed_leaf
  attribute_to_hashed_leaf-empty_marker n p = rw (is_empty-empty_marker n)

  -- Masking attributes and then hashing them is hashing them and then masking the leaves, for
  -- attributes that are not of length 0.
  pub attribute_to_hashed_leaf-mask_slots :
      (attrs : List Attribute) (bits : List Bool)
      → All (λ a. 0 < len_bytes a) attrs
      → map (attribute_to_hashed_leaf h) (mask_slots attrs bits)
        ≡ masked_leaves (map (attribute_to_hashed_leaf h) attrs) bits
  unfolding mask_slots
  attribute_to_hashed_leaf-mask_slots [] bits p = refl
  attribute_to_hashed_leaf-mask_slots (a ∷ attrs) [] p = refl
  attribute_to_hashed_leaf-mask_slots (a ∷ attrs) (true ∷ bits) p =
      ap₂ ◌∷◌ refl (attribute_to_hashed_leaf-mask_slots attrs bits p.1)
  attribute_to_hashed_leaf-mask_slots (a ∷ attrs) (false ∷ bits) p =
      ap₂ ◌∷◌ (attribute_to_hashed_leaf-empty_marker (len_bytes a) p.0)
        (attribute_to_hashed_leaf-mask_slots attrs bits p.1)

-- Slot by slot, the second vector has the first one's leaf or the zero leaf.
abbrev pub Redacts : List (List ℕ) → List (List ℕ) → Type 0
Redacts [] [] = Unit
Redacts (x ∷ xs) (y ∷ ys) = ((y ≡ x) ⊎ (y ≡ zero_leaf)) × Redacts xs ys
Redacts xs ys = ⊥

pub Redacts-refl : (xs : List (List ℕ)) → Redacts xs xs
Redacts-refl [] = tt
Redacts-refl (x ∷ xs) = (inl refl, Redacts-refl xs)

pub Redacts-trans : (xs ys zs : List (List ℕ)) → Redacts xs ys → Redacts ys zs → Redacts xs zs
Redacts-trans [] [] [] p q = tt
Redacts-trans [] [] (z ∷ zs) p q = q
Redacts-trans [] (y ∷ ys) zs p q = absurd p
Redacts-trans (x ∷ xs) [] zs p q = absurd p
Redacts-trans (x ∷ xs) (y ∷ ys) [] p q = absurd q
Redacts-trans (x ∷ xs) (y ∷ ys) (z ∷ zs) p q =
    let slot : ((z ≡ x) ⊎ (z ≡ zero_leaf)) = elim q.0 [
      | inr empty ↦ inr empty
      | inl same ↦ elim p.0 [ inr empty ↦ inr (same ∙ empty) | inl e ↦ inl (same ∙ e) ]
    ] in
    (slot, Redacts-trans xs ys zs p.1 q.1)

pub masked_leaves-Redacts :
    (leaves : List (List ℕ)) (mask : List Bool)
    → length mask ≡ length leaves
    → Redacts leaves (masked_leaves leaves mask)
masked_leaves-Redacts [] mask e = nil mask
  where
    nil : (m : List Bool) → Redacts [] (masked_leaves [] m)
    nil [] = tt
    nil (x ∷ m) = tt
masked_leaves-Redacts (leaf ∷ leaves) [] e = absurd (omega arith)
masked_leaves-Redacts (leaf ∷ leaves) (true ∷ mask) e =
    (inl refl, masked_leaves-Redacts leaves mask (omega arith))
masked_leaves-Redacts (leaf ∷ leaves) (false ∷ mask) e =
    (inr refl, masked_leaves-Redacts leaves mask (omega arith))

pub length-masked_leaves :
    (leaves : List (List ℕ)) (mask : List Bool)
    → length mask ≡ length leaves
    → length (masked_leaves leaves mask) ≡ length leaves
length-masked_leaves [] mask e = refl
length-masked_leaves (leaf ∷ leaves) [] e = absurd (omega arith)
length-masked_leaves (leaf ∷ leaves) (keep ∷ mask) e =
    ap suc (length-masked_leaves leaves mask (omega arith))

-- Masked leaves have four elements still.
pub masked_leaves-four :
    (leaves : List (List ℕ)) (mask : List Bool)
    → All (λ d. length d ≡ num_hash_out_elts) leaves
    → All (λ d. length d ≡ num_hash_out_elts) (masked_leaves leaves mask)
masked_leaves-four [] mask d = tt
masked_leaves-four (leaf ∷ leaves) [] d = tt
masked_leaves-four (leaf ∷ leaves) (true ∷ mask) d = (d.0, masked_leaves-four leaves mask d.1)
masked_leaves-four (leaf ∷ leaves) (false ∷ mask) d = (refl, masked_leaves-four leaves mask d.1)
