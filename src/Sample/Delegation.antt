-- ===== src/Sample/Delegation.antt =====
-- A delegation under the toy parameters: a wrapped credential of two attributes, a first delegate
-- who may delegate to level 3, and a second one from whom the second attribute is hidden.
use dac_from_legacy_credenti.Prelude.{
  ℕ, Bool, true, false, ◌&&◌, ◌||◌, List, [], ◌∷◌, ◌++◌, list_eq,
}
use dac_from_legacy_credenti.Plonky2.Recursion.{VerifierData, vk_elements, Recursion}
use dac_from_legacy_credenti.Layout.{BasePublicInputLayout}
use dac_from_legacy_credenti.Delegate.{DelegationTargets}
use dac_from_legacy_credenti.Sample.Proofs.{key_of, same_vk, toy_proofs}

abbrev pub layout : BasePublicInputLayout
layout = record {
  issuer_pk_pi_start = 0;
  issuer_pk_pi_len = 2;
  com_pi_start = 2;
  com_pi_len = 4;
  level_pi_idx = 6;
  max_level_pi_idx = 7;
  num_attributes = 2;
  num_max_attributes = 2;
  attribute_u32_limbs = 4;
  attribute_len_bytes = 16;
}

abbrev pub four : ℕ → ℕ → ℕ → ℕ → List ℕ
four a b c d = a ∷ b ∷ c ∷ d ∷ []

abbrev pub wrapper_key : VerifierData
wrapper_key = key_of (four 21 22 23 24) (25 ∷ 26 ∷ [])

abbrev pub delegation_key : VerifierData
delegation_key = key_of (four 31 32 33 34) (35 ∷ 36 ∷ [])

abbrev pub leaves : List (List ℕ)
leaves = four 3 1 4 1 ∷ four 2 7 1 8 ∷ []

abbrev pub all_shown : List ℕ
all_shown = four 2380068273 8 1 2

abbrev pub first_shown : List ℕ
first_shown = four 232733466 8 1 2

abbrev pub base_pis : List ℕ → ℕ → ℕ → List ℕ
base_pis root level max_level = 11 ∷ 12 ∷ root ++ level ∷ max_level ∷ []

-- The wrapper's public inputs have the shape of the delegation circuit's; what follows the cap
-- is its digest and a key, which nobody reads.
abbrev pub wrapper : List ℕ
wrapper = base_pis all_shown 0 255 ++ four 0 0 0 0 ++ vk_elements wrapper_key

abbrev pub delegated : List ℕ → ℕ → ℕ → List ℕ
delegated root level max_level =
    (base_pis root level max_level ++ four 21 22 23 24) ++ vk_elements delegation_key

abbrev pub first : List ℕ
first = delegated all_shown 1 3

abbrev pub second : List ℕ
second = delegated first_shown 2 3

-- The base circuit's key, and the proof that the wrapper wraps.
abbrev pub base_key : VerifierData
base_key = key_of (four 41 42 43 44) (45 ∷ 46 ∷ [])

abbrev pub base : List ℕ
base = base_pis all_shown 0 255

-- Two delegation proofs verify under the delegation key, the wrapper proof and the
-- base proof under their own.
abbrev pub accepts : VerifierData → List ℕ → Bool
accepts key p =
    (same_vk key delegation_key && (list_eq p first || list_eq p second))
    || ((same_vk key wrapper_key && list_eq p wrapper) || (same_vk key base_key && list_eq p base))

abbrev pub proofs : Recursion
proofs = toy_proofs accepts

abbrev pub first_step : DelegationTargets proofs
first_step = record {
  outer_pis = base_pis all_shown 1 3;
  attr_targets = leaves;
  attribute_mask = true ∷ true ∷ [];
  inner_proof = second;
  verifier_data_target = delegation_key;
  wrapper_proof = wrapper;
  wrapper_vk = wrapper_key;
  wrapper_digest_pis = four 21 22 23 24;
}

abbrev pub second_step : DelegationTargets proofs
second_step = record {
  outer_pis = base_pis first_shown 2 3;
  attr_targets = leaves;
  attribute_mask = true ∷ false ∷ [];
  inner_proof = first;
  verifier_data_target = delegation_key;
  wrapper_proof = wrapper;
  wrapper_vk = wrapper_key;
  wrapper_digest_pis = four 21 22 23 24;
}
