-- ===== src/Delegate/Sound.antt =====
-- What the delegation circuit enforces in one step, and what it exposes.
use dac_from_legacy_credenti.Prelude.{
  at, ℕ, ◌+◌, ◌%◌, ◌≤◌, ◌<◌, ◌≡◌, ◌⊎◌, Bool, true, false, not, List, All, All-get_or, length,
  if◌then◌else◌, ◌==◌, &&-split, arith,
}
use dac_from_legacy_credenti.Plonky2.Field.{Builder}
use dac_from_legacy_credenti.Plonky2.Hash.{Hasher, num_hash_out_elts}
use dac_from_legacy_credenti.Plonky2.Circuit.{
  holds, are_elements, are_elements-All, virtual_targets-holds,
}
use dac_from_legacy_credenti.Plonky2.Recursion.{
  Recursion, VerifierData, virtual_proof, virtual_verifier_data,
}
use dac_from_legacy_credenti.Layout.{BasePublicInputLayout, base_pi_count}
use dac_from_legacy_credenti.Delegate.{
  DelegationTargets, in_commitment, delegation_circuit, num_public_inputs,
}
use dac_from_legacy_credenti.Delegate.Rules.{
  forward_pis-eq, level_rule-eq, cap_rule_iff, digest_rule-eq,
}
use dac_from_legacy_credenti.Delegate.Step.{
  is_first, previous_pis, delegation_circuit-Parts, Attributes, attribute_rule-Attributes,
}

module _ (b : Builder) (h : Hasher) (r : Recursion) (layout : BasePublicInputLayout) where
  -- One step of delegation, as an assignment of the circuit's targets shows it.
  pub record IsStep (t : DelegationTargets r) : Type 0 where
    pub outer_len : length t.outer_pis ≡ base_pi_count layout
    pub digest_len : length t.wrapper_digest_pis ≡ num_hash_out_elts
    pub vk_digest_len : length t.verifier_data_target.circuit_digest ≡ num_hash_out_elts
    pub vk_cap_len : length t.verifier_data_target.constants_sigmas_cap ≡ r.cap_len
    pub wrapper_vk_digest_len : length t.wrapper_vk.circuit_digest ≡ num_hash_out_elts
    pub forwarded :
        (i : ℕ)
        → i < layout.level_pi_idx
        → in_commitment layout i ≡ false
        → at t.outer_pis i ≡ at (previous_pis b h r layout t) i
    pub level_up :
        at t.outer_pis layout.level_pi_idx
        ≡ (at (previous_pis b h r layout t) layout.level_pi_idx + 1) % b.order
    pub cap_small : at t.outer_pis layout.max_level_pi_idx < 256
    pub cap_tightens :
        at t.outer_pis layout.max_level_pi_idx
        ≤ at (previous_pis b h r layout t) layout.max_level_pi_idx
    pub level_bound :
        (at t.outer_pis layout.level_pi_idx ≤ at t.outer_pis layout.max_level_pi_idx)
        ⊎ (b.order + at t.outer_pis layout.max_level_pi_idx
            < at t.outer_pis layout.level_pi_idx + 256)
    pub level_element : at t.outer_pis layout.level_pi_idx < b.order
    pub previous_element : at (previous_pis b h r layout t) layout.level_pi_idx < b.order
    pub carried : r.vk_of (r.public_inputs t.inner_proof) ≡ t.verifier_data_target
    pub verified :
        (if is_first b h r layout t
          then r.verify t.wrapper_vk t.wrapper_proof
          else r.verify t.verifier_data_target t.inner_proof)
        ≡ true
    pub digest :
        (j : ℕ)
        → j < num_hash_out_elts
        → at t.wrapper_digest_pis j ≡ (
            if is_first b h r layout t
            then at t.wrapper_vk.circuit_digest j
            else at (r.public_inputs t.inner_proof) (base_pi_count layout + j))
    pub attributes : Attributes b h r layout t

  elements_at : (xs : List ℕ) (i : ℕ) → All (λ v. v < b.order) xs → at xs i < b.order
  elements_at xs i a = All-get_or (λ v. v < b.order) xs i 0 a (omega (arith, b.u32_lt_order))

  proof_elements :
      (n : ℕ) (p : r.Proof)
      → holds (virtual_proof b r n p) ≡ true
      → All (λ v. v < b.order) (r.public_inputs p)
  unfolding virtual_proof
  proof_elements n p e =
      are_elements-All b (r.public_inputs p)
        (&&-split (length (r.public_inputs p) == n) (are_elements b (r.public_inputs p)) e).1

  vk_shape :
      (v : VerifierData)
      → holds (virtual_verifier_data b r v) ≡ true
      → (length v.circuit_digest ≡ num_hash_out_elts) × (length v.constants_sigmas_cap ≡ r.cap_len)
  unfolding virtual_verifier_data
  vk_shape v e = ground arith

  choose :
      (P : List ℕ → Type 0) (c : Bool) (xs ys : List ℕ) → P xs → P ys → P (if c then xs else ys)
  choose P true xs ys p q = p
  choose P false xs ys p q = q

  -- An assignment that satisfies the delegation circuit is one step of delegation: it forwards the
  -- previous public inputs, counts the level up, keeps the cap within the previous one, extends a
  -- proof that verifies, names the wrapper's digest, and commits to the masked leaves.
  pub delegation_circuit-IsStep :
      (t : DelegationTargets r) → holds (delegation_circuit b h r layout t) ≡ true → IsStep t
  delegation_circuit-IsStep t e =
      let parts = delegation_circuit-Parts b h r layout t e in
      let first = is_first b h r layout t in
      let n = num_public_inputs b h r layout in
      let w = r.public_inputs t.wrapper_proof in
      let i = r.public_inputs t.inner_proof in
      let prev = previous_pis b h r layout t in
      let (outer_len, outer_el) =
        virtual_targets-holds b (base_pi_count layout) t.outer_pis parts.outer in
      let (digest_len, _) =
        virtual_targets-holds b num_hash_out_elts t.wrapper_digest_pis parts.digest in
      let (vk_d, vk_c) = vk_shape t.verifier_data_target parts.vk in
      let prev_el =
        choose (All (λ v. v < b.order)) first w i (proof_elements n t.wrapper_proof parts.wrapper)
          (proof_elements n t.inner_proof parts.inner) in
      let level_el = elements_at t.outer_pis layout.level_pi_idx outer_el in
      let (small, tight, _, bound) =
        (cap_rule_iff b (at t.outer_pis layout.level_pi_idx)
            (at t.outer_pis layout.max_level_pi_idx) (at prev layout.max_level_pi_idx) level_el
            (elements_at t.outer_pis layout.max_level_pi_idx outer_el)
            (elements_at prev layout.max_level_pi_idx prev_el)).0
          parts.cap in
      let checked =
        (r.verify_cyclic_iff (not first) t.verifier_data_target t.inner_proof t.wrapper_proof
            t.wrapper_vk).0
          parts.verified in
      record {
        outer_len = outer_len;
        digest_len = digest_len;
        vk_digest_len = vk_d;
        vk_cap_len = vk_c;
        wrapper_vk_digest_len = (vk_shape t.wrapper_vk parts.wrapper_vk).0;
        forwarded = forward_pis-eq b layout first t.outer_pis w i parts.forwarded;
        level_up =
            level_rule-eq b (at t.outer_pis layout.level_pi_idx) (at prev layout.level_pi_idx)
              parts.level;
        cap_small = small;
        cap_tightens = tight;
        level_bound = bound;
        level_element = level_el;
        previous_element = elements_at prev layout.level_pi_idx prev_el;
        carried = checked.0;
        verified =
            turn first (r.verify t.verifier_data_target t.inner_proof)
              (r.verify t.wrapper_vk t.wrapper_proof) checked.1;
        digest =
            digest_rule-eq b first t.wrapper_digest_pis t.wrapper_vk.circuit_digest
              (base_pi_count layout) i parts.digest_carried;
        attributes = attribute_rule-Attributes b h r layout t parts.attributes;
      }
    where
      turn : (c x y : Bool) → (if not c then x else y) ≡ true → (if c then y else x) ≡ true
      turn true x y p = p
      turn false x y p = p
