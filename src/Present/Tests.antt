-- ===== src/Present/Tests.antt =====
-- The theorems on presentations, at a presentation of the second delegate's credential.
use dac_from_legacy_credenti.Prelude.{
  at, map, false, ◌+◌, ℕ, List, ◌<◌, ◌≡◌, refl, ◌⊎◌, true, [], ◌∷◌, zero, suc, arith,
}
use dac_from_legacy_credenti.Plonky2.Circuit.{
  holds, for_each, virtual_target, virtual_targets, are_elements,
}
use dac_from_legacy_credenti.Plonky2.Recursion.{virtual_proof, vk_elements}
use dac_from_legacy_credenti.Layout.{base_pi_count}
use dac_from_legacy_credenti.Merkle.{
  attribute_to_hashed_leaf, attribute_to_field_elements, is_power_of_two, is_power_within,
  merkle_root_from_leaves,
}
use dac_from_legacy_credenti.Merkle.InCircuit.{pair_level, fold_levels, root_of_leaves}
use dac_from_legacy_credenti.Merkle.InCircuit.Binding.{Collision}
use dac_from_legacy_credenti.Delegate.{virtual_leaves, num_public_inputs}
use dac_from_legacy_credenti.Delegate.Tests.{layout_IsLayout, extracts}
use dac_from_legacy_credenti.Present.{
  PresentationTargets, expose_rule, key_rule, disclose_slot, disclosure_rule, presentation_circuit,
}
use dac_from_legacy_credenti.Present.Sound.{
  presentation, IsPresentation, presentation_circuit-IsPresentation,
}
use dac_from_legacy_credenti.Present.Disclosure.{
  IssuerApart, Discloses, presentation_circuit-Discloses,
}
use dac_from_legacy_credenti.Prelude.Outcome.{ok}
use dac_from_legacy_credenti.Credential.Attribute.{
  Attribute, is_empty, empty_attribute_bytes, to_u32_limbs_le, limbs_of, word_at, from_be_bytes,
}
use dac_from_legacy_credenti.Present.Witness.Complete.{
  IsHeld, Fits, assignment, build_presentation_witness-holds,
}
use dac_from_legacy_credenti.Sample.Prime.{sample}
use dac_from_legacy_credenti.Sample.Hash.{
  toy, toy_hash, toy_hash_or_noop, toy_digest, toy_hash_or_noop-All,
}
use dac_from_legacy_credenti.Sample.Delegation.{four, layout, proofs, delegation_key, second}

abbrev pub shown : PresentationTargets proofs
shown = record {
  issuer_pk_pis = 11 ∷ 12 ∷ [];
  disclosed_pis = 3 ∷ 1 ∷ 4 ∷ 1 ∷ four 0 0 0 0;
  nonce_pi = 99;
  wrapper_digest_pis = four 21 22 23 24;
  leaf_digests = four 3 1 4 1 ∷ four 0 0 0 0 ∷ [];
  reveal = true ∷ true ∷ [];
  inner_delegation_proof = second;
}

pub shown_holds : holds (presentation sample toy proofs layout delegation_key shown) ≡ true
unfolding presentation_circuit expose_rule key_rule disclose_slot disclosure_rule num_public_inputs
    base_pi_count virtual_leaves for_each virtual_target virtual_targets are_elements virtual_proof
    merkle_root_from_leaves is_power_of_two is_power_within pair_level fold_levels root_of_leaves
    toy_hash toy_hash_or_noop toy_digest
shown_holds = refl

presentation_circuit-IsPresentation_example :
    IsPresentation sample toy proofs layout delegation_key shown
presentation_circuit-IsPresentation_example =
    presentation_circuit-IsPresentation sample toy proofs layout delegation_key shown refl refl
      shown_holds

pub layout-IssuerApart : IssuerApart layout
layout-IssuerApart zero lt = (omega arith, refl)
layout-IssuerApart (suc zero) lt = (omega arith, refl)
layout-IssuerApart (suc (suc i)) lt = absurd (omega arith)

presentation_circuit-Discloses_example : Discloses toy proofs layout shown ⊎ Collision toy
presentation_circuit-Discloses_example =
    presentation_circuit-Discloses sample toy proofs layout layout_IsLayout delegation_key extracts
      shown refl refl layout-IssuerApart shown_holds

-- The holder's attributes: sixteen bytes, and a slot that was hidden.
abbrev held_attributes : List Attribute
held_attributes =
    record { bytes = 0 ∷ 0 ∷ 0 ∷ 1 ∷ 0 ∷ 0 ∷ 0 ∷ 4 ∷ 0 ∷ 0 ∷ 0 ∷ 1 ∷ 0 ∷ 0 ∷ 0 ∷ 3 ∷ [] }
    ∷ record { bytes = 1 ∷ 0 ∷ 0 ∷ 0 ∷ 0 ∷ 0 ∷ 0 ∷ 0 ∷ 0 ∷ 0 ∷ 0 ∷ 0 ∷ 0 ∷ 0 ∷ 0 ∷ 0 ∷ [] }
    ∷ []

second_carries :
    (i : ℕ) → i < 6 → at second (base_pi_count layout + 4 + i) ≡ at (vk_elements delegation_key) i
unfolding base_pi_count
second_carries zero lt = refl
second_carries (suc zero) lt = refl
second_carries (suc (suc zero)) lt = refl
second_carries (suc (suc (suc zero))) lt = refl
second_carries (suc (suc (suc (suc zero)))) lt = refl
second_carries (suc (suc (suc (suc (suc zero))))) lt = refl
second_carries (suc (suc (suc (suc (suc (suc i)))))) lt = absurd (omega arith)

second_commits :
    (i : ℕ)
    → i < 4
    → at (root_of_leaves toy (map (attribute_to_hashed_leaf toy) held_attributes)) i
      ≡ at second (2 + i)
unfolding root_of_leaves fold_levels pair_level toy_hash toy_hash_or_noop toy_digest
    attribute_to_hashed_leaf attribute_to_field_elements is_empty empty_attribute_bytes
    to_u32_limbs_le limbs_of word_at from_be_bytes
second_commits zero lt = refl
second_commits (suc zero) lt = refl
second_commits (suc (suc zero)) lt = refl
second_commits (suc (suc (suc zero))) lt = refl
second_commits (suc (suc (suc (suc i)))) lt = absurd (omega arith)

second-IsHeld : IsHeld sample toy proofs layout delegation_key second held_attributes
unfolding num_public_inputs base_pi_count
second-IsHeld = record {
  verified = refl;
  count = refl;
  elements = omega arith;
  key = second_carries;
  committed = second_commits;
  slots = refl;
  octets = (omega arith, (omega arith, tt));
}

layout_Fits : Fits sample toy proofs layout delegation_key
unfolding is_power_of_two is_power_within num_public_inputs base_pi_count
layout_Fits = record {
  power = refl;
  some_slots = omega arith;
  issuer_within = omega arith;
  com_within = omega arith;
  com_four = refl;
}

build_presentation_witness-holds_example :
    (t : PresentationTargets proofs) × (assignment sample toy proofs layout delegation_key second
        held_attributes
        (true ∷ false ∷ [])
        99
      ≡ ok t)
    × (holds (presentation sample toy proofs layout delegation_key t) ≡ true)
build_presentation_witness-holds_example =
    build_presentation_witness-holds sample toy proofs layout delegation_key second held_attributes
      (true ∷ false ∷ []) 99 layout_Fits toy_hash_or_noop-All second-IsHeld refl (omega arith)
