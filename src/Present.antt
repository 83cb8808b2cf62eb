-- ===== src/Present.antt =====
-- src/circuits/present.rs: the presentation circuit `R_Pres`, read at an assignment of its
-- targets.
pub mod Sound
pub mod Disclosure
pub mod Witness
pub mod Tests
use dac_from_legacy_credenti.Prelude.{
  at, ℕ, ◌+◌, ◌*◌, Bool, true, false, ◌&&◌, not, List, [], ◌∷◌, ◌++◌, length, get_or, range, leb,
  ◌==◌,
}
use dac_from_legacy_credenti.Plonky2.Field.{Builder}
use dac_from_legacy_credenti.Plonky2.Hash.{Hasher, num_hash_out_elts}
use dac_from_legacy_credenti.Plonky2.Circuit.{
  Circuit, Done, ◌>>=◌, ◌>>◌, pure, assert, connect, for_each, virtual_target, virtual_targets,
}
use dac_from_legacy_credenti.Plonky2.Recursion.{Recursion, VerifierData, vk_elements, virtual_proof}
use dac_from_legacy_credenti.Merkle.{is_power_of_two, merkle_root_from_leaves}
use dac_from_legacy_credenti.Delegate.{virtual_leaves}

module _ (r : Recursion) where
  pub record PresentationTargets : Type 0 where
    pub issuer_pk_pis : List ℕ
    pub disclosed_pis : List ℕ
    pub nonce_pi : ℕ
    pub wrapper_digest_pis : List ℕ
    pub leaf_digests : List (List ℕ)
    pub reveal : List Bool
    pub inner_delegation_proof : r.Proof

-- `targets[i]` is `pis[start + i]`, for `i` below `len`.
pub expose_rule : ℕ → ℕ → List ℕ → List ℕ → Circuit Done
expose_rule start len targets pis =
    for_each (λ i. connect (at targets i) (at pis (start + i))) (range len)

-- `connect_verifier_data` of the key that stands in the public inputs from `start` on.
pub key_rule : ℕ → ℕ → VerifierData → List ℕ → Circuit Done
key_rule start cap_len vk pis =
    for_each (λ i. connect (at pis (start + i)) (at (vk_elements vk) i))
      (range (num_hash_out_elts + cap_len))

module _ (b : Builder) where
  -- One slot: `select(reveal[i], leaf_digests[i][j], zero)`, for each element `j`.
  pub disclose_slot : List ℕ → List (List ℕ) → List Bool → ℕ → Circuit Done
  disclose_slot disclosed leaf_digests reveal i =
      for_each
        (λ j.
          connect (at disclosed (i * num_hash_out_elts + j))
            (b.select (get_or reveal i false) (at (get_or leaf_digests i []) j) 0))
        (range num_hash_out_elts)

  pub disclosure_rule : ℕ → List ℕ → List (List ℕ) → List Bool → Circuit Done
  disclosure_rule num_max_attributes disclosed leaf_digests reveal =
      for_each (disclose_slot disclosed leaf_digests reveal) (range num_max_attributes)

module _ (b : Builder) (h : Hasher) (r : Recursion) where
  -- The public inputs of a presentation: issuer key, disclosed digests, nonce, wrapper digest.
  pub presentation_pis : PresentationTargets r → List ℕ
  presentation_pis t =
      ((t.issuer_pk_pis ++ t.disclosed_pis) ++ (t.nonce_pi ∷ [])) ++ t.wrapper_digest_pis

  -- `num_pis` is `delegation_common.num_public_inputs`.
  pub presentation_circuit :
      ℕ → VerifierData → ℕ → ℕ → ℕ → ℕ → ℕ → ℕ → PresentationTargets r → Circuit (List ℕ)
  presentation_circuit num_pis delegation_vk issuer_start issuer_len com_start com_len n
        digest_start t =
      do
        assert (is_power_of_two n && not (n == 0))
        assert (leb (issuer_start + issuer_len) num_pis)
        assert (leb (com_start + com_len) num_pis && com_len == 4)
        issuer ← virtual_targets b issuer_len t.issuer_pk_pis
        disclosed ← virtual_targets b (n * num_hash_out_elts) t.disclosed_pis
        nonce ← virtual_target b t.nonce_pi
        digest ← virtual_targets b num_hash_out_elts t.wrapper_digest_pis
        inner ← virtual_proof b r num_pis t.inner_delegation_proof
        let pis = r.public_inputs inner
        let vk_start = digest_start + num_hash_out_elts
        expose_rule issuer_start issuer_len issuer pis
        assert (r.verify delegation_vk inner)
        assert (vk_start + (num_hash_out_elts + r.cap_len) == num_pis)
        key_rule vk_start r.cap_len delegation_vk pis
        expose_rule digest_start num_hash_out_elts digest pis
        leaves ← virtual_leaves b n t.leaf_digests
        assert (length t.reveal == n)
        root ← merkle_root_from_leaves h leaves
        expose_rule com_start num_hash_out_elts root pis
        disclosure_rule b n disclosed leaves t.reveal
        pure (presentation_pis t)
