-- ===== src/Delegate/OtherCap/Tests.antt =====
-- A first step whose wrapper proof verifies under keys of any cap.
use dac_from_legacy_credenti.Prelude.{◌||◌, [], ◌∷◌, list_eq}
use dac_from_legacy_credenti.Plonky2.Recursion.{Recursion, VerifierData}
use dac_from_legacy_credenti.Delegate.{DelegationTargets}
use dac_from_legacy_credenti.Sample.Proofs.{toy_proofs, key_of}
use dac_from_legacy_credenti.Sample.Delegation.{accepts, wrapper, wrapper_key, first_step}

abbrev any_cap : Recursion
any_cap = toy_proofs (λ key p. accepts key p || list_eq p wrapper)

abbrev step : DelegationTargets any_cap
step = record {
  outer_pis = first_step.outer_pis;
  attr_targets = first_step.attr_targets;
  attribute_mask = first_step.attribute_mask;
  inner_proof = first_step.inner_proof;
  verifier_data_target = first_step.verifier_data_target;
  wrapper_proof = wrapper;
  wrapper_vk = wrapper_key;
  wrapper_digest_pis = first_step.wrapper_digest_pis;
}

-- The digest of the wrapper's key, with another cap.
abbrev other_key : VerifierData
other_key = key_of wrapper_key.circuit_digest (77 ∷ 78 ∷ [])
