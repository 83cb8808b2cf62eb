-- ===== src/Wrapper.antt =====
-- src/circuits/jwt_wrapper.rs: the wrapper circuit `R_Wrap`, which verifies a proof of the base
-- circuit and exposes its public inputs in the layout of the delegation circuit.
pub mod Build
pub mod Sound
pub mod Origin
mod Tests
use dac_from_legacy_credenti.Prelude.{
  ℕ, Bool, true, false, ◌&&◌, List, [], ◌∷◌, ◌++◌, map, at, length, leb, ◌==◌, range,
}
use dac_from_legacy_credenti.Prelude.Outcome.{Result, ok, ensure, panicked}
use dac_from_legacy_credenti.Prelude.Outcome
use dac_from_legacy_credenti.Plonky2.Field.{Builder}
use dac_from_legacy_credenti.Plonky2.Hash.{num_hash_out_elts}
use dac_from_legacy_credenti.Plonky2.Circuit.{
  Circuit, Done, ◌>>=◌, ◌>>◌, pure, assert, connect, for_each, virtual_targets,
}
use dac_from_legacy_credenti.Plonky2.Recursion.{
  Recursion, VerifierData, vk_elements, virtual_proof, virtual_verifier_data,
}

module _ (r : Recursion) where
  pub record JwtWrapperTargets : Type 0 where
    pub base_proof : r.Proof
    pub outer_pis : List ℕ
    pub verifier_data_target : VerifierData
    pub wrapper_digest_pis : List ℕ

  -- The public inputs in the order in which they are added.
  unfoldable pub wrapper_pis : JwtWrapperTargets → List ℕ
  wrapper_pis t = (t.outer_pis ++ t.wrapper_digest_pis) ++ vk_elements t.verifier_data_target

  -- `prove_jwt_wrapper`: the assignment that it hands to `prove`, under the wrapper's own key.
  unfoldable pub prove_jwt_wrapper : ℕ → VerifierData → r.Proof → Result JwtWrapperTargets
  prove_jwt_wrapper base_pi_count own_vk base_proof =
      let pis = r.public_inputs base_proof in
      Outcome.◌>>◌ (ensure (leb base_pi_count (length pis)) panicked) (
        ok (record {
          base_proof = base_proof;
          outer_pis = map (λ i. at pis i) (range base_pi_count);
          verifier_data_target = own_vk;
          wrapper_digest_pis = map (λ j. at own_vk.circuit_digest j) (range num_hash_out_elts);
        }))

module _ (b : Builder) (r : Recursion) where
  -- The circuit for a base circuit of `base_pi_count` public inputs, whose key is a constant.
  unfoldable pub jwt_wrapper_circuit : ℕ → VerifierData → JwtWrapperTargets r → Circuit (List ℕ)
  unfolding wrapper_pis
  jwt_wrapper_circuit base_pi_count base_vk t = do
    outer_pis ← virtual_targets b base_pi_count t.outer_pis
    wrapper_digest_pis ← virtual_targets b num_hash_out_elts t.wrapper_digest_pis
    verifier_data_target ← virtual_verifier_data b r t.verifier_data_target
    base_proof ← virtual_proof b r base_pi_count t.base_proof
    assert (r.verify base_vk base_proof)
    for_each (λ i. connect (at outer_pis i) (at (r.public_inputs base_proof) i))
        (range base_pi_count)
    pure (wrapper_pis r t)
