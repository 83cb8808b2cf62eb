-- ===== src/Present/Witness.antt =====
-- `build_presentation_witness` of src/circuits/present.rs, with the public inputs that plonky2
-- fills in by the circuit's own connections: the disclosed digests and the wrapper digest.
mod Elements
pub mod Complete
use dac_from_legacy_credenti.Prelude.{
  ℕ, ◌+◌, Bool, List, [], ◌∷◌, ◌++◌, map, at, length, range, ◌==◌,
}
use dac_from_legacy_credenti.Prelude.Outcome.{
  Result, ok, attribute_count, bitmap_mismatch, panicked, ◌>>=◌, ◌>>◌, ensure,
}
use dac_from_legacy_credenti.Plonky2.Field.{Builder}
use dac_from_legacy_credenti.Plonky2.Hash.{Hasher, num_hash_out_elts}
use dac_from_legacy_credenti.Plonky2.Recursion.{Recursion}
use dac_from_legacy_credenti.Credential.Attribute.{Attribute}
use dac_from_legacy_credenti.Merkle.{attribute_to_hashed_leaf}
use dac_from_legacy_credenti.Delegate.{mask_leaf}
use dac_from_legacy_credenti.Present.{PresentationTargets}

-- `count` public inputs from `start` on.
abbrev pub slice_of : List ℕ → ℕ → ℕ → List ℕ
slice_of pis start count = map (λ i. at pis (start + i)) (range count)

module _ (b : Builder) where
  -- What the `select` of each slot generates, slot after slot.
  pub generate_disclosed : List (List ℕ) → List Bool → List ℕ
  generate_disclosed (leaf ∷ leaves) (keep ∷ reveal) =
      mask_leaf b leaf keep ++ generate_disclosed leaves reveal
  generate_disclosed leaves reveal = []

module _ (b : Builder) (h : Hasher) (r : Recursion) where
  -- `num_pis` is what the delegation circuit has of public inputs.
  pub build_presentation_witness :
      ℕ → ℕ → ℕ → ℕ → ℕ → r.Proof → List Attribute → List Bool → ℕ → Result (PresentationTargets r)
  build_presentation_witness num_pis issuer_start issuer_len n digest_start delegation_proof
        attributes reveal_mask nonce =
      do
        let pis = r.public_inputs delegation_proof
        ensure (length pis == num_pis) panicked
        ensure (length attributes == n) attribute_count
        ensure (length reveal_mask == n) bitmap_mismatch
        let leaves = map (attribute_to_hashed_leaf h) attributes
        ok (record {
          issuer_pk_pis = slice_of pis issuer_start issuer_len;
          disclosed_pis = generate_disclosed b leaves reveal_mask;
          nonce_pi = nonce;
          wrapper_digest_pis = slice_of pis digest_start num_hash_out_elts;
          leaf_digests = leaves;
          reveal = reveal_mask;
          inner_delegation_proof = delegation_proof;
        })
