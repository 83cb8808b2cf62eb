-- ===== src/Plonky2/Recursion.antt =====
-- The proof system: proofs with public inputs, and the in-circuit verifiers that a recursive
-- circuit calls.
use dac_from_legacy_credenti.Prelude.{
  ℕ, ◌≡◌, ◌↔◌, Bool, true, ◌&&◌, List, ◌++◌, length, ◌==◌, if◌then◌else◌,
}
use dac_from_legacy_credenti.Plonky2.Field.{Builder}
use dac_from_legacy_credenti.Plonky2.Circuit.{Circuit, are_elements}
use dac_from_legacy_credenti.Plonky2.Hash.{num_hash_out_elts}

-- `VerifierOnlyCircuitData`: the digest of the circuit and the elements of `constants_sigmas_cap`.
pub record VerifierData : Type 0 where
  pub circuit_digest : List ℕ
  pub constants_sigmas_cap : List ℕ

-- The order in which `add_verifier_data_public_inputs` lays it out.
abbrev pub vk_elements : VerifierData → List ℕ
vk_elements v = v.circuit_digest ++ v.constants_sigmas_cap

pub record Recursion : Type 1 where
  pub Proof : Type 0
  pub public_inputs : Proof → List ℕ
  -- `verify_proof`, under a verifier key
  pub verify : VerifierData → Proof → Bool
  -- how many elements `constants_sigmas_cap` has under the recursion configuration
  pub cap_len : ℕ
  -- `VerifierCircuitTarget::from_slice`: the key that stands last among the public inputs
  pub vk_of : List ℕ → VerifierData
  pub vk_of-append :
      (pis : List ℕ) (v : VerifierData)
      → length v.circuit_digest ≡ num_hash_out_elts
      → length v.constants_sigmas_cap ≡ cap_len
      → vk_of (pis ++ vk_elements v) ≡ v
  -- `conditionally_verify_cyclic_proof(condition, cyclic, other, other_vk)` in a circuit whose own
  -- key is the second argument: the cyclic proof carries that key in any case, and the proof that
  -- the condition selects is verified
  pub verify_cyclic : Bool → VerifierData → Proof → Proof → VerifierData → Bool
  pub verify_cyclic_iff :
      (condition : Bool) (own : VerifierData) (cyclic other : Proof) (other_vk : VerifierData)
      → (verify_cyclic condition own cyclic other other_vk ≡ true) ↔ (
          (vk_of (public_inputs cyclic) ≡ own)
          × ((if condition then verify own cyclic else verify other_vk other) ≡ true))

module _ (b : Builder) (r : Recursion) where
  -- `add_virtual_proof_with_pis`, for `count` public inputs
  unfoldable pub virtual_proof : ℕ → r.Proof → Circuit r.Proof
  virtual_proof count p =
      (p, length (r.public_inputs p) == count && are_elements b (r.public_inputs p))

  -- `add_verifier_data_public_inputs` and `add_virtual_verifier_data`
  unfoldable pub virtual_verifier_data : VerifierData → Circuit VerifierData
  virtual_verifier_data v = (
    v,
    length v.circuit_digest == num_hash_out_elts
        && (length v.constants_sigmas_cap == r.cap_len && are_elements b (vk_elements v)),
  )
