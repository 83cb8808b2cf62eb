-- ===== src/Delegate.antt =====
-- src/circuits/delegate.rs: the delegation circuit `R_Del`, read at an assignment of its targets.
pub mod Rules
pub mod Step
pub mod Sound
pub mod Genuine
pub mod Chain
pub mod Origin
pub mod OtherCap
pub mod Prove
pub mod Tests
use mathlib.Core.List.{map}
use dac_from_legacy_credenti.Prelude.{
  at, ℕ, ◌+◌, ◌-◌, Bool, true, false, ◌&&◌, not, List, [], ◌∷◌, ◌++◌, length, get_or, range,
  replicate, leb, ltb, ◌==◌, if◌then◌else◌,
}
use dac_from_legacy_credenti.Plonky2.Field.{Builder}
use dac_from_legacy_credenti.Plonky2.Hash.{Hasher, num_hash_out_elts}
use dac_from_legacy_credenti.Plonky2.Circuit.{
  Circuit, Done, ◌>>=◌, ◌>>◌, pure, assert, connect, for_each, virtual_targets, range_checked,
}
use dac_from_legacy_credenti.Plonky2.Recursion.{
  Recursion, VerifierData, vk_elements, virtual_proof, virtual_verifier_data,
}
use dac_from_legacy_credenti.Layout.{BasePublicInputLayout, base_pi_count, max_level_bits}
use dac_from_legacy_credenti.Merkle.{merkle_root_from_leaves, zero_leaf}

-- `(com_pi_start..com_pi_start + com_pi_len).contains(&i)`
abbrev pub in_commitment : BasePublicInputLayout → ℕ → Bool
in_commitment layout i =
    leb layout.com_pi_start i && ltb i (layout.com_pi_start + layout.com_pi_len)

module _ (b : Builder) where
  -- `outer_pis[i]` is the public input of the proof that the step extends, but for commitment,
  -- level and cap.
  pub forward_pis : BasePublicInputLayout → Bool → List ℕ → List ℕ → List ℕ → Circuit Done
  forward_pis layout is_base outer wrapper inner =
      for_each
        (λ i.
          if in_commitment layout i
          then pure tt
          else connect (at outer i) (b.select is_base (at wrapper i) (at inner i)))
        (range layout.level_pi_idx)

  -- `L' = L_prev + 1`
  pub level_rule : ℕ → ℕ → Circuit Done
  level_rule level prev_level = connect level (b.add prev_level 1)

  -- `L' <= maxLevel' <= maxLevel_prev`, as range checks of the differences
  pub cap_rule : ℕ → ℕ → ℕ → Circuit Done
  cap_rule level max_level prev_max_level = do
    range_checked b max_level max_level_bits
    range_checked b (b.sub max_level level) max_level_bits
    range_checked b (b.sub prev_max_level max_level) max_level_bits

  -- The wrapper's digest at the first step, the digest of the previous step later.
  pub digest_rule : Bool → List ℕ → List ℕ → ℕ → List ℕ → Circuit Done
  digest_rule is_base wrapper_digest_pis wrapper_vk_digest digest_start inner =
      for_each
        (λ j.
          connect (at wrapper_digest_pis j)
            (b.select is_base (at wrapper_vk_digest j) (at inner (digest_start + j))))
        (range num_hash_out_elts)

  -- `add_virtual_targets(NUM_HASH_OUT_ELTS)` and `add_virtual_bool_target_safe` for each slot
  unfoldable pub virtual_leaves : ℕ → List (List ℕ) → Circuit (List (List ℕ))
  virtual_leaves count leaves = do
    assert (length leaves == count)
    for_each (λ leaf. (tt, (virtual_targets b num_hash_out_elts leaf).1)) leaves
    pure leaves

  -- `builder.select(b, h, empty_h)` at each element of a slot
  unfoldable pub mask_leaf : List ℕ → Bool → List ℕ
  mask_leaf leaf keep = map (λ e. b.select keep e 0) leaf

  pub mask_leaves : List (List ℕ) → List Bool → List (List ℕ)
  mask_leaves (leaf ∷ leaves) (keep ∷ mask) = mask_leaf leaf keep ∷ mask_leaves leaves mask
  mask_leaves leaves mask = []

  -- The elements of `root` are what the public inputs hold from `start` on.
  pub commitment_rule : ℕ → ℕ → List ℕ → (ℕ → ℕ) → Circuit Done
  commitment_rule start len root pi =
      for_each (λ i. connect (at root i) (pi (start + i))) (range len)

module _ (r : Recursion) where
  pub record DelegationTargets : Type 0 where
    pub outer_pis : List ℕ
    pub attr_targets : List (List ℕ)
    pub attribute_mask : List Bool
    pub inner_proof : r.Proof
    pub verifier_data_target : VerifierData
    pub wrapper_proof : r.Proof
    pub wrapper_vk : VerifierData
    pub wrapper_digest_pis : List ℕ

module _ (b : Builder) (h : Hasher) (r : Recursion) where
  -- The public inputs of a proof of this circuit: outer, wrapper digest, verifier key.
  unfoldable pub num_public_inputs : BasePublicInputLayout → ℕ
  num_public_inputs layout =
      base_pi_count layout + num_hash_out_elts + (num_hash_out_elts + r.cap_len)

  pub exposed_pis : DelegationTargets r → List ℕ
  exposed_pis t = (t.outer_pis ++ t.wrapper_digest_pis) ++ vk_elements t.verifier_data_target

  -- Attribute hashes, mask, and the two commitments.
  pub attribute_rule :
      BasePublicInputLayout → Bool → List ℕ → List ℕ → DelegationTargets r → Circuit Done
  attribute_rule layout is_base wrapper inner t = do
    leaves ← virtual_leaves b layout.num_max_attributes t.attr_targets
    assert (length t.attribute_mask == layout.num_max_attributes)
    com_prev ← merkle_root_from_leaves h leaves
    commitment_rule b layout.com_pi_start layout.com_pi_len com_prev
        (λ i. b.select is_base (at wrapper i) (at inner i))
    com_next ← merkle_root_from_leaves h (mask_leaves b leaves t.attribute_mask)
    commitment_rule b layout.com_pi_start layout.com_pi_len com_next (at t.outer_pis)

  pub delegation_circuit : BasePublicInputLayout → DelegationTargets r → Circuit (List ℕ)
  delegation_circuit layout t = do
    assert (layout.max_level_pi_idx == layout.level_pi_idx + 1)
    outer ← virtual_targets b (base_pi_count layout) t.outer_pis
    digest ← virtual_targets b num_hash_out_elts t.wrapper_digest_pis
    vk ← virtual_verifier_data b r t.verifier_data_target
    inner ← virtual_proof b r (num_public_inputs layout) t.inner_proof
    wrapper ← virtual_proof b r (num_public_inputs layout) t.wrapper_proof
    wrapper_vk ← virtual_verifier_data b r t.wrapper_vk
    let level = at outer layout.level_pi_idx
    let max_level = at outer layout.max_level_pi_idx
    let inner_pis = r.public_inputs inner
    let wrapper_pis = r.public_inputs wrapper
    let is_base = b.is_equal level 1
    forward_pis b layout is_base outer wrapper_pis inner_pis
    level_rule b level
        (b.select is_base (at wrapper_pis layout.level_pi_idx) (at inner_pis layout.level_pi_idx))
    cap_rule b level max_level (
        b.select is_base (at wrapper_pis layout.max_level_pi_idx)
          (at inner_pis layout.max_level_pi_idx))
    assert (r.verify_cyclic (not is_base) vk inner wrapper wrapper_vk)
    digest_rule b is_base digest wrapper_vk.circuit_digest (base_pi_count layout) inner_pis
    attribute_rule layout is_base wrapper_pis inner_pis t
    pure (exposed_pis t)
