-- ===== src/Present/Disclosure.antt =====
-- From a presentation back to the wrapped base credential: what a verifier learns.
use dac_from_legacy_credenti.Prelude.{
  at, ℕ, ◌+◌, ◌*◌, ◌<◌, ◌≡◌, sym, subst, ◌∙◌, ◌⊎◌, inl, inr, true, false, List, [], length, get_or,
}
use dac_from_legacy_credenti.Plonky2.Field.{Builder}
use dac_from_legacy_credenti.Plonky2.Hash.{Hasher, num_hash_out_elts}
use dac_from_legacy_credenti.Plonky2.Circuit.{holds}
use dac_from_legacy_credenti.Plonky2.Recursion.{Recursion, VerifierData}
use dac_from_legacy_credenti.Layout.{BasePublicInputLayout}
use dac_from_legacy_credenti.Merkle.{is_power_of_two-pow}
use dac_from_legacy_credenti.Merkle.InCircuit.Binding.{Collision}
use dac_from_legacy_credenti.Merkle.Mask.{
  masked_leaves, Redacts, Redacts-trans, masked_leaves-Redacts,
}
use dac_from_legacy_credenti.Delegate.{in_commitment}
use dac_from_legacy_credenti.Delegate.Genuine.{IsLayout, Extracts}
use dac_from_legacy_credenti.Delegate.Origin.{Commits, Origin, IsGenuine-Origin, Commits-unique}
use dac_from_legacy_credenti.Present.{PresentationTargets}
use dac_from_legacy_credenti.Present.Sound.{
  presentation, IsPresentation, presentation_circuit-IsPresentation,
}

-- The issuer's key stands before the level, outside the commitment.
abbrev pub IssuerApart : BasePublicInputLayout → Type 0
IssuerApart layout =
    (i : ℕ)
    → i < layout.issuer_pk_pi_len
    → (layout.issuer_pk_pi_start + i < layout.level_pi_idx)
      × (in_commitment layout (layout.issuer_pk_pi_start + i) ≡ false)

-- What a presentation shows of a wrapped base credential: the issuer's key in the credential, the
-- digest of the key that its wrapper verifies under, and at each slot a leaf of the credential
-- or the zero leaf.
pub record Discloses (h : Hasher) (r : Recursion) (layout : BasePublicInputLayout)
    (t : PresentationTargets r) : Type 0 where
  pub wrapper : r.Proof
  pub wrapper_vk : VerifierData
  pub wrapper_vk_digest_len : length wrapper_vk.circuit_digest ≡ num_hash_out_elts
  pub wrapper_verified : r.verify wrapper_vk wrapper ≡ true
  pub base_level : at (r.public_inputs wrapper) layout.level_pi_idx ≡ 0
  pub named :
      (j : ℕ) → j < num_hash_out_elts → at t.wrapper_digest_pis j ≡ at wrapper_vk.circuit_digest j
  pub issuer :
      (i : ℕ)
      → i < layout.issuer_pk_pi_len
      → at t.issuer_pk_pis i ≡ at (r.public_inputs wrapper) (layout.issuer_pk_pi_start + i)
  pub original : List (List ℕ)
  pub original_commits : Commits h layout (r.public_inputs wrapper) original
  pub shown : List (List ℕ)
  pub shown_redacts : Redacts original shown
  pub disclosed :
      (i j : ℕ)
      → i < layout.num_max_attributes
      → j < num_hash_out_elts
      → at t.disclosed_pis (i * num_hash_out_elts + j) ≡ at (get_or shown i []) j

module _ (b : Builder) (h : Hasher) (r : Recursion) (layout : BasePublicInputLayout)
    (wf : IsLayout layout) (vk : VerifierData) (extracts : Extracts b h r layout vk) where
  -- If what verifies under the delegation key has a satisfying assignment, then an assignment
  -- that satisfies the presentation circuit discloses, slot by slot, leaves of a base credential
  -- of level 0 or zero leaves, under the issuer key of that credential and the digest of the key
  -- that its wrapper verifies under; or else there is a collision of the hash. The delegation
  -- key has the shape that the configuration fixes, and in the layout the issuer's key stands
  -- before the level and outside the commitment, and the cap after the level.
  pub presentation_circuit-Discloses :
      (t : PresentationTargets r)
      → length vk.circuit_digest ≡ num_hash_out_elts
      → length vk.constants_sigmas_cap ≡ r.cap_len
      → IssuerApart layout
      → holds (presentation b h r layout vk t) ≡ true
      → Discloses h r layout t ⊎ Collision h
  presentation_circuit-Discloses t ed ec apart e =
      let p = presentation_circuit-IsPresentation b h r layout vk t ed ec e in
      elim (IsGenuine-Origin b h r layout wf vk extracts t.inner_delegation_proof p.genuine) [
        | inr found ↦ inr found
        | inl origin ↦ elim (same_leaves p origin) [
          | inr found ↦ inr found
          | inl same ↦ inl (discloses p origin same)
        ]
      ]
    where
      same_leaves :
          IsPresentation b h r layout vk t
          → (o : Origin h r layout t.inner_delegation_proof)
          → (o.current ≡ t.leaf_digests) ⊎ Collision h
      same_leaves p o =
          let (k, power) = is_power_of_two-pow (length t.leaf_digests) p.power in
          Commits-unique h layout (r.public_inputs t.inner_delegation_proof) o.current
            t.leaf_digests k power o.current_commits p.commits

      discloses :
          IsPresentation b h r layout vk t
          → (o : Origin h r layout t.inner_delegation_proof) → o.current ≡ t.leaf_digests
          → Discloses h r layout t
      discloses p o same = record {
        wrapper = o.wrapper;
        wrapper_vk = o.wrapper_vk;
        wrapper_vk_digest_len = o.wrapper_vk_digest_len;
        wrapper_verified = o.wrapper_verified;
        base_level = o.base_level;
        named = λ j lt. p.digest j lt ∙ o.named j lt;
        issuer = λ i lt.
            p.issuer i lt ∙ o.issuer (layout.issuer_pk_pi_start + i) (apart i lt).0 (apart i lt).1;
        original = o.original;
        original_commits = o.original_commits;
        shown = masked_leaves t.leaf_digests t.reveal;
        shown_redacts =
            Redacts-trans o.original t.leaf_digests (masked_leaves t.leaf_digests t.reveal)
              (subst (Redacts o.original) same o.redacted)
              (masked_leaves-Redacts t.leaf_digests t.reveal
                (p.reveal_count ∙ sym p.commits.count));
        disclosed = p.disclosed;
      }
