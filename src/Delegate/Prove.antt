-- ===== src/Delegate/Prove.antt =====
-- The prover's side of src/circuits/delegate.rs: the depth-cap guard, and the assignment that
-- a step of delegation hands to `prove`.
pub mod Guard
use dac_from_legacy_credenti.Prelude.{
  ℕ, zero, suc, ◌+◌, Bool, false, not, List, [], ◌∷◌, map, at, length, set, take, resize, Option,
  none, some, ltb, leb, ◌==◌,
}
use dac_from_legacy_credenti.Prelude.Outcome.{
  Result, ok, err, cap_exceeds_parent, cap_reached, attribute_count, bitmap_mismatch, panicked,
  ◌>>=◌, ◌>>◌, ensure,
}
use dac_from_legacy_credenti.Plonky2.Field.{Builder}
use dac_from_legacy_credenti.Plonky2.Hash.{Hasher, num_hash_out_elts}
use dac_from_legacy_credenti.Plonky2.Recursion.{Recursion, VerifierData}
use dac_from_legacy_credenti.Credential.Attribute.{Attribute}
use dac_from_legacy_credenti.Merkle.{
  attribute_to_hashed_leaf, pad_attributes, mask_attributes, compute_merkle_root,
}
use dac_from_legacy_credenti.Layout.{BasePublicInputLayout, base_pi_count}
use dac_from_legacy_credenti.Delegate.{DelegationTargets}

-- `max_level.map_or(prev_max_level, u64::from)`
abbrev pub cap_or : Option ℕ → ℕ → ℕ
cap_or none prev_max_level = prev_max_level
cap_or (some cap) prev_max_level = cap

pub resolve_depth_cap : Option ℕ → ℕ → ℕ → Result ℕ
resolve_depth_cap max_level level_next prev_max_level = do
  let cap = cap_or max_level prev_max_level
  ensure (not (ltb prev_max_level cap)) cap_exceeds_parent
  ensure (not (ltb cap level_next)) cap_reached
  ok cap

-- The loop that writes `com_next` into the next public inputs.
pub write_commitment : ℕ → ℕ → List ℕ → List ℕ → List ℕ
write_commitment start zero root pis = pis
write_commitment start (suc i) root pis =
    set (write_commitment start i root pis) (start + i) (at root i)

-- The previous public inputs up to the cap, the level counted up, the cap and the commitment set.
pub next_outer_pis : Builder → BasePublicInputLayout → List ℕ → ℕ → List ℕ → List ℕ
next_outer_pis b layout prev_pis cap_next root =
    let base = take (base_pi_count layout) prev_pis in
    let counted = set base layout.level_pi_idx (b.add (at base layout.level_pi_idx) 1) in
    let capped = set counted layout.max_level_pi_idx cap_next in
    write_commitment layout.com_pi_start layout.com_pi_len root capped

-- `fill_hashed_attribute_witness`, for `targets` slots
pub fill_hashed_attribute_witness : Hasher → ℕ → List Attribute → Result (List (List ℕ))
fill_hashed_attribute_witness h targets attributes = do
  ensure (length attributes == targets) attribute_count
  ok (map (attribute_to_hashed_leaf h) attributes)

pub fill_attribute_mask_witness : ℕ → List Bool → Result (List Bool)
fill_attribute_mask_witness targets bitmap = do
  ensure (length bitmap == targets) bitmap_mismatch
  ok bitmap

module _ (b : Builder) (h : Hasher) (r : Recursion) (layout : BasePublicInputLayout) where
  -- What `prove_delegation_base_with_cap` and `prove_delegation_step_with_cap` share: both take
  -- the public inputs of the proof that they extend, and differ in the wrapper digest and in
  -- which of the two proof slots is a dummy.
  pub step_assignment :
      List ℕ
      → List ℕ
      → r.Proof
      → r.Proof
      → VerifierData
      → VerifierData
      → List Attribute
      → List Bool
      → ℕ
      → Result (DelegationTargets r)
  step_assignment prev_pis digest inner wrapper own_vk wrapper_vk attributes bitmap cap_next = do
    ensure (leb (base_pi_count layout) (length prev_pis)) panicked
    padded_attrs ← pad_attributes attributes layout.num_max_attributes
    let padded_bitmap = resize layout.num_max_attributes false bitmap
    masked_attrs ← mask_attributes padded_attrs padded_bitmap
    com_next ← compute_merkle_root h masked_attrs
    leaves ← fill_hashed_attribute_witness h layout.num_max_attributes padded_attrs
    mask ← fill_attribute_mask_witness layout.num_max_attributes padded_bitmap
    ok (record {
      outer_pis = next_outer_pis b layout prev_pis cap_next com_next;
      attr_targets = leaves;
      attribute_mask = mask;
      inner_proof = inner;
      verifier_data_target = own_vk;
      wrapper_proof = wrapper;
      wrapper_vk = wrapper_vk;
      wrapper_digest_pis = digest;
    })

  pub prove_delegation_base_with_cap :
      VerifierData
      → VerifierData
      → r.Proof
      → r.Proof
      → List Attribute
      → List Bool
      → ℕ
      → Result (DelegationTargets r)
  prove_delegation_base_with_cap del_vk wrapper_vk wrapper_proof del_proof_dummy attributes bitmap
        cap_next =
      step_assignment (r.public_inputs wrapper_proof) wrapper_vk.circuit_digest del_proof_dummy
        wrapper_proof del_vk wrapper_vk attributes bitmap cap_next

  -- `public_inputs[wrapper_digest_pi_start + j]`, for each `j`; the digest follows the base inputs.
  pub prove_delegation_step_with_cap :
      VerifierData
      → VerifierData
      → r.Proof
      → r.Proof
      → List Attribute
      → List Bool
      → ℕ
      → Result (DelegationTargets r)
  prove_delegation_step_with_cap del_vk wrapper_vk wrapper_dummy prev_del_proof attributes bitmap
        cap_next =
      let prev_pis = r.public_inputs prev_del_proof in
      step_assignment prev_pis
        (map (λ j. at prev_pis (base_pi_count layout + j)) (0 ∷ 1 ∷ 2 ∷ 3 ∷ [])) prev_del_proof
        wrapper_dummy del_vk wrapper_vk attributes bitmap cap_next

  pub prove_delegation_base :
      VerifierData
      → VerifierData
      → r.Proof
      → r.Proof
      → List Attribute
      → List Bool
      → Option ℕ
      → Result (DelegationTargets r)
  prove_delegation_base del_vk wrapper_vk wrapper_proof del_proof_dummy attributes bitmap
        max_level =
      do
        let pis = r.public_inputs wrapper_proof
        cap_next ←
            resolve_depth_cap max_level (at pis layout.level_pi_idx + 1)
              (at pis layout.max_level_pi_idx)
        prove_delegation_base_with_cap del_vk wrapper_vk wrapper_proof del_proof_dummy attributes
            bitmap cap_next

  pub prove_delegation_step :
      VerifierData
      → VerifierData
      → r.Proof
      → r.Proof
      → List Attribute
      → List Bool
      → Option ℕ
      → Result (DelegationTargets r)
  prove_delegation_step del_vk wrapper_vk wrapper_dummy prev_del_proof attributes bitmap max_level =
      do
        let pis = r.public_inputs prev_del_proof
        cap_next ←
            resolve_depth_cap max_level (at pis layout.level_pi_idx + 1)
              (at pis layout.max_level_pi_idx)
        prove_delegation_step_with_cap del_vk wrapper_vk wrapper_dummy prev_del_proof attributes
            bitmap cap_next
