-- ===== src/Delegate/Step.antt =====
-- What an assignment that satisfies the delegation circuit says: one step of delegation.
use dac_from_legacy_credenti.Prelude.{
  at, ℕ, ◌+◌, ◌<◌, ◌≡◌, refl, ap, ap₂, ◌∙◌, Bool, true, false, not, List, [], ◌∷◌, map, All-map,
  replicate, length, if◌then◌else◌, ◌==◌, ==_iff, arith,
}
use dac_from_legacy_credenti.Plonky2.Field.{Builder}
use dac_from_legacy_credenti.Plonky2.Hash.{Hasher, num_hash_out_elts}
use dac_from_legacy_credenti.Plonky2.Circuit.{
  Circuit, Done, holds, for_each, for_each-All, virtual_targets, virtual_targets-holds,
}
use dac_from_legacy_credenti.Plonky2.Recursion.{Recursion, virtual_proof, virtual_verifier_data}
use dac_from_legacy_credenti.Layout.{BasePublicInputLayout, base_pi_count}
use dac_from_legacy_credenti.Merkle.{is_power_of_two, merkle_root_from_leaves, zero_leaf}
use dac_from_legacy_credenti.Merkle.InCircuit.{root_of_leaves}
use dac_from_legacy_credenti.Merkle.InCircuit.Binding.{Digests}
use dac_from_legacy_credenti.Merkle.Mask.{masked_leaves}
use dac_from_legacy_credenti.Delegate.{
  DelegationTargets, forward_pis, level_rule, cap_rule, digest_rule, virtual_leaves, mask_leaf,
  mask_leaves, commitment_rule, attribute_rule, delegation_circuit, num_public_inputs,
}
use dac_from_legacy_credenti.Delegate.Rules.{select-at, commitment_rule-eq, is_equal-==}

module _ (b : Builder) (h : Hasher) (r : Recursion) (layout : BasePublicInputLayout) where
  -- The step is the first one: its level is 1.
  abbrev pub is_first : DelegationTargets r → Bool
  is_first t = at t.outer_pis layout.level_pi_idx == 1

  -- The public inputs of the proof that the step extends.
  abbrev pub previous_pis : DelegationTargets r → List ℕ
  previous_pis t =
      if is_first t then r.public_inputs t.wrapper_proof else r.public_inputs t.inner_proof

  -- The constraints of the circuit, part by part.
  pub record Parts (t : DelegationTargets r) : Type 0 where
    pub adjacent : (layout.max_level_pi_idx == layout.level_pi_idx + 1) ≡ true
    pub outer : holds (virtual_targets b (base_pi_count layout) t.outer_pis) ≡ true
    pub digest : holds (virtual_targets b num_hash_out_elts t.wrapper_digest_pis) ≡ true
    pub vk : holds (virtual_verifier_data b r t.verifier_data_target) ≡ true
    pub inner : holds (virtual_proof b r (num_public_inputs b h r layout) t.inner_proof) ≡ true
    pub wrapper : holds (virtual_proof b r (num_public_inputs b h r layout) t.wrapper_proof) ≡ true
    pub wrapper_vk : holds (virtual_verifier_data b r t.wrapper_vk) ≡ true
    pub forwarded :
        holds (
          forward_pis b layout
            (is_first t)
            t.outer_pis
            (r.public_inputs t.wrapper_proof)
            (r.public_inputs t.inner_proof))
        ≡ true
    pub level :
        holds (
          level_rule b
            (at t.outer_pis layout.level_pi_idx)
            (at (previous_pis t) layout.level_pi_idx))
        ≡ true
    pub cap :
        holds (
          cap_rule b
            (at t.outer_pis layout.level_pi_idx)
            (at t.outer_pis layout.max_level_pi_idx)
            (at (previous_pis t) layout.max_level_pi_idx))
        ≡ true
    pub verified :
        r.verify_cyclic
          (not (is_first t))
          t.verifier_data_target
          t.inner_proof
          t.wrapper_proof
          t.wrapper_vk
        ≡ true
    pub digest_carried :
        holds (
          digest_rule b
            (is_first t)
            t.wrapper_digest_pis
            t.wrapper_vk.circuit_digest
            (base_pi_count layout)
            (r.public_inputs t.inner_proof))
        ≡ true
    pub attributes :
        holds (
          attribute_rule b h r layout
            (is_first t)
            (r.public_inputs t.wrapper_proof)
            (r.public_inputs t.inner_proof)
            t)
        ≡ true

  pub delegation_circuit-Parts :
      (t : DelegationTargets r) → holds (delegation_circuit b h r layout t) ≡ true → Parts t
  unfolding delegation_circuit virtual_targets virtual_proof virtual_verifier_data
  delegation_circuit-Parts t e =
      let w = r.public_inputs t.wrapper_proof in
      let i = r.public_inputs t.inner_proof in
      let read =
        rw
          (
            is_equal-== b (at t.outer_pis layout.level_pi_idx) 1,
            select-at b (is_first t) w i layout.level_pi_idx,
            select-at b (is_first t) w i layout.max_level_pi_idx,
          )
          at e in
      ground arith

  -- The attribute hashes, the mask and the two commitments that they are tied to.
  pub record Attributes (t : DelegationTargets r) : Type 0 where
    pub leaf_count : length t.attr_targets ≡ layout.num_max_attributes
    pub mask_count : length t.attribute_mask ≡ layout.num_max_attributes
    pub digests : Digests t.attr_targets
    pub power : is_power_of_two (length t.attr_targets) ≡ true
    pub committed :
        (i : ℕ)
        → i < layout.com_pi_len
        → at (root_of_leaves h t.attr_targets) i ≡ at (previous_pis t) (layout.com_pi_start + i)
    pub recommitted :
        (i : ℕ)
        → i < layout.com_pi_len
        → at (root_of_leaves h (masked_leaves t.attr_targets t.attribute_mask)) i
          ≡ at t.outer_pis (layout.com_pi_start + i)

  mask_leaf-if :
      (leaf : List ℕ) (keep : Bool)
      → length leaf ≡ num_hash_out_elts
      → mask_leaf b leaf keep ≡ (if keep then leaf else zero_leaf)
  unfolding mask_leaf
  mask_leaf-if leaf true e = kept leaf
    where
      kept : (xs : List ℕ) → map (λ x. b.select true x 0) xs ≡ xs
      kept [] = refl
      kept (x ∷ xs) = ap₂ ◌∷◌ (b.select_true x 0) (kept xs)
  mask_leaf-if leaf false e = dropped leaf ∙ ap (λ n. replicate n 0) e
    where
      dropped : (xs : List ℕ) → map (λ x. b.select false x 0) xs ≡ replicate (length xs) 0
      dropped [] = refl
      dropped (x ∷ xs) = ap₂ ◌∷◌ (b.select_false x 0) (dropped xs)

  mask_leaves-masked_leaves :
      (leaves : List (List ℕ)) (mask : List Bool)
      → Digests leaves
      → mask_leaves b leaves mask ≡ masked_leaves leaves mask
  unfolding mask_leaves
  mask_leaves-masked_leaves [] mask d = refl
  mask_leaves-masked_leaves (leaf ∷ leaves) [] d = refl
  mask_leaves-masked_leaves (leaf ∷ leaves) (keep ∷ mask) d =
      ap₂ ◌∷◌ (mask_leaf-if leaf keep d.0) (mask_leaves-masked_leaves leaves mask d.1)

  pub virtual_leaves-Digests :
      (n : ℕ) (leaves : List (List ℕ))
      → holds (virtual_leaves b n leaves) ≡ true
      → (length leaves ≡ n) × Digests leaves
  unfolding virtual_leaves
  virtual_leaves-Digests n leaves e =
      let body : List ℕ → Circuit Done =
        λ leaf. (tt, holds (virtual_targets b num_hash_out_elts leaf)) in
      let counted : (length leaves == n) ≡ true = ground arith in
      let each : holds (for_each body leaves) ≡ true = ground arith in
      (
        (==_iff (length leaves) n).0 counted,
        All-map (λ leaf. holds (body leaf) ≡ true) (λ d. length d ≡ num_hash_out_elts) leaves
            (λ leaf p. (virtual_targets-holds b num_hash_out_elts leaf p).0)
            (for_each-All body leaves each),
      )

  pub attribute_rule-Attributes :
      (t : DelegationTargets r)
      → holds (
          attribute_rule b h r layout
            (is_first t)
            (r.public_inputs t.wrapper_proof)
            (r.public_inputs t.inner_proof)
            t)
        ≡ true
      → Attributes t
  unfolding attribute_rule merkle_root_from_leaves virtual_leaves
  attribute_rule-Attributes t e =
      let leaves = t.attr_targets in
      let w = r.public_inputs t.wrapper_proof in
      let i = r.public_inputs t.inner_proof in
      let pi : ℕ → ℕ = λ k. b.select (is_first t) (at w k) (at i k) in
      let start = layout.com_pi_start in
      let len = layout.com_pi_len in
      let next = mask_leaves b leaves t.attribute_mask in
      let shape : holds (virtual_leaves b layout.num_max_attributes leaves) ≡ true = ground arith in
      let (count, digests) = virtual_leaves-Digests layout.num_max_attributes leaves shape in
      let masked : (length t.attribute_mask == layout.num_max_attributes) ≡ true = ground arith in
      let before : holds (commitment_rule b start len (root_of_leaves h leaves) pi) ≡ true =
        ground arith in
      let after : holds (commitment_rule b start len (root_of_leaves h next) (at t.outer_pis))
          ≡ true =
        ground arith in
      record {
        leaf_count = count;
        mask_count = (==_iff (length t.attribute_mask) layout.num_max_attributes).0 masked;
        digests = digests;
        power = ground arith;
        committed = λ k lt.
            commitment_rule-eq b start len (root_of_leaves h leaves) pi before k lt
            ∙ select-at b (is_first t) w i (start + k);
        recommitted = λ k lt.
            rw (← mask_leaves-masked_leaves leaves t.attribute_mask digests)
              (commitment_rule-eq b start len (root_of_leaves h next) (at t.outer_pis) after k lt);
      }
