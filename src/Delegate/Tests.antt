-- ===== src/Delegate/Tests.antt =====
-- The theorems on delegation, at a delegation of two steps.
use dac_from_legacy_credenti.Prelude.{
  some, ◌↔◌, ◌+◌, ◌≤◌, ◌<◌, ◌≡◌, refl, sym, ◌∙◌, ◌⊎◌, inl, inr, true, Bool-cases, list_eq,
  list_eq_sound, arith,
}
use dac_from_legacy_credenti.Plonky2.Circuit.{
  holds, for_each, virtual_targets, are_elements, range_checked,
}
use dac_from_legacy_credenti.Plonky2.Recursion.{virtual_proof, virtual_verifier_data}
use dac_from_legacy_credenti.Layout.{base_pi_count}
use dac_from_legacy_credenti.Merkle.{is_power_of_two, is_power_within, merkle_root_from_leaves}
use dac_from_legacy_credenti.Merkle.InCircuit.{pair_level, fold_levels, root_of_leaves}
use dac_from_legacy_credenti.Merkle.InCircuit.Binding.{Collision}
use dac_from_legacy_credenti.Delegate.{
  forward_pis, level_rule, cap_rule, digest_rule, virtual_leaves, mask_leaf, mask_leaves,
  commitment_rule, attribute_rule, delegation_circuit, num_public_inputs, exposed_pis,
}
use dac_from_legacy_credenti.Delegate.Rules.{cap_rule_iff}
use dac_from_legacy_credenti.Delegate.Sound.{IsStep, delegation_circuit-IsStep}
use dac_from_legacy_credenti.Delegate.Genuine.{IsLayout, Extracts, IsGenuine, level_of, cap_of}
use dac_from_legacy_credenti.Delegate.Chain.{IsGenuine-levels}
use dac_from_legacy_credenti.Delegate.Origin.{Origin, IsGenuine-Origin}
use dac_from_legacy_credenti.Prelude.Outcome.{ok}
use dac_from_legacy_credenti.Delegate.Prove.{resolve_depth_cap}
use dac_from_legacy_credenti.Delegate.Prove.Guard.{resolve_depth_cap-cap_rule}
use dac_from_legacy_credenti.Sample.Prime.{sample}
use dac_from_legacy_credenti.Sample.Hash.{toy, toy_hash, toy_hash_or_noop, toy_digest}
use dac_from_legacy_credenti.Sample.Proofs.{toy_vk_of}
use dac_from_legacy_credenti.Sample.Delegation.{
  layout, proofs, delegation_key, first, second, first_step, second_step,
}

both_hold :
    (holds (delegation_circuit sample toy proofs layout first_step) ≡ true)
    × (holds (delegation_circuit sample toy proofs layout second_step) ≡ true)
unfolding delegation_circuit forward_pis level_rule cap_rule digest_rule virtual_leaves mask_leaf
    mask_leaves commitment_rule attribute_rule num_public_inputs base_pi_count for_each
    virtual_targets are_elements range_checked virtual_proof virtual_verifier_data
    merkle_root_from_leaves is_power_of_two is_power_within pair_level fold_levels root_of_leaves
    toy_hash toy_hash_or_noop toy_digest toy_vk_of
both_hold = (refl, refl)

exposed :
    (exposed_pis sample toy proofs first_step ≡ first)
    × (exposed_pis sample toy proofs second_step ≡ second)
unfolding exposed_pis
exposed = (refl, refl)

delegation_circuit-IsStep_example : IsStep sample toy proofs layout second_step
delegation_circuit-IsStep_example =
    delegation_circuit-IsStep sample toy proofs layout second_step both_hold.1

pub layout_IsLayout : IsLayout layout
layout_IsLayout = record { four = refl; before_level = omega arith; cap_next = refl }

pub extracts : Extracts sample toy proofs layout delegation_key
extracts p e = elim (Bool-cases (list_eq p first)) [
  | inl one ↦ (first_step, both_hold.0, exposed.0 ∙ sym (list_eq_sound p first one))
  | inr not_one ↦
      let two : list_eq p second ≡ true = ground arith in
      (second_step, both_hold.1, exposed.1 ∙ sym (list_eq_sound p second two))
]

pub second-IsGenuine : IsGenuine proofs delegation_key second
unfolding toy_vk_of
second-IsGenuine = record { verified = refl; key = refl }

IsGenuine-levels_example :
    (1 ≤ level_of sample toy proofs layout layout_IsLayout delegation_key extracts second)
    × (level_of sample toy proofs layout layout_IsLayout delegation_key extracts second
        ≤ cap_of sample toy proofs layout layout_IsLayout delegation_key extracts second)
    × (cap_of sample toy proofs layout layout_IsLayout delegation_key extracts second < 256)
IsGenuine-levels_example =
    IsGenuine-levels sample toy proofs layout layout_IsLayout delegation_key extracts second
      second-IsGenuine

IsGenuine-Origin_example : Origin toy proofs layout second ⊎ Collision toy
IsGenuine-Origin_example =
    IsGenuine-Origin sample toy proofs layout layout_IsLayout delegation_key extracts second
      second-IsGenuine

-- Level 2 of 3, below a parent without a cap.
cap_rule_iff_example :
    (holds (cap_rule sample 2 3 255) ≡ true)
    ↔ ((3 < 256) × (3 ≤ 255) × (255 < 3 + 256) × ((2 ≤ 3) ⊎ (sample.order + 3 < 2 + 256)))
cap_rule_iff_example = cap_rule_iff sample 2 3 255 (omega arith) (omega arith) (omega arith)

-- A delegator at level 1 of 3 who asks for a cap of 2.
resolve_depth_cap-cap_rule_example :
    (resolve_depth_cap (some 2) 2 3 ≡ ok 2) ↔ (holds (cap_rule sample 2 2 3) ≡ true)
resolve_depth_cap-cap_rule_example =
    resolve_depth_cap-cap_rule sample (some 2) 2 3 (omega arith) (omega arith) (omega arith)
