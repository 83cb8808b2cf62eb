-- ===== src/Wrapper/Origin.antt =====
-- From a presentation to the credential: what it shows of a proof of the base circuit.
use dac_from_legacy_credenti.Prelude.{
  ℕ, ◌≢◌, eq_of_get_or, Bool-cases, list_eq, list_eq_sound, list_eq_refl, ap₂, ◌+◌, ◌*◌, ◌<◌, ◌≡◌,
  sym, ap, ◌∙◌, ◌⊎◌, inl, inr, true, List, [], ◌++◌, at, length, get_or, get_or-append_left,
  length-append, arith,
}
use dac_from_legacy_credenti.Plonky2.Field.{Builder}
use dac_from_legacy_credenti.Plonky2.Hash.{Hasher, num_hash_out_elts}
use dac_from_legacy_credenti.Plonky2.Circuit.{holds}
use dac_from_legacy_credenti.Plonky2.Recursion.{Recursion, VerifierData, vk_elements}
use dac_from_legacy_credenti.Layout.{BasePublicInputLayout}
use dac_from_legacy_credenti.Merkle.InCircuit.Binding.{Collision}
use dac_from_legacy_credenti.Delegate.Genuine.{IsLayout, Extracts}
use dac_from_legacy_credenti.Delegate.Origin.{Commits}
use dac_from_legacy_credenti.Merkle.Mask.{Redacts}
use dac_from_legacy_credenti.Present.{PresentationTargets}
use dac_from_legacy_credenti.Present.Sound.{presentation}
use dac_from_legacy_credenti.Present.Disclosure.{
  IssuerApart, Discloses, presentation_circuit-Discloses,
}
use dac_from_legacy_credenti.Wrapper.{JwtWrapperTargets, wrapper_pis, jwt_wrapper_circuit}
use dac_from_legacy_credenti.Wrapper.Sound.{jwt_wrapper_circuit-wraps}

-- Knowledge soundness of the proof system for one circuit, the wrapper of one base key: what
-- verifies under the wrapper's own key, of digest and cap, has an assignment that satisfies the
-- wrapper circuit and exposes the proof's public inputs.
abbrev pub WrapperExtracts :
    (b : Builder) (r : Recursion) → ℕ → VerifierData → VerifierData → Type 0
WrapperExtracts b r count base_vk own_vk =
    (p : r.Proof)
    → r.verify own_vk p ≡ true
    → (t : JwtWrapperTargets r) × (holds (jwt_wrapper_circuit b r count base_vk t) ≡ true)
      × (wrapper_pis r t ≡ r.public_inputs p)

-- What a presentation shows of a proof of the base circuit: it verifies under the base key and is
-- of level 0; the issuer's key is the proof's, and each slot shows a leaf that the proof commits
-- to, or zeros.
pub record ShowsBase (h : Hasher) (r : Recursion) (layout : BasePublicInputLayout)
    (base_vk : VerifierData) (t : PresentationTargets r) : Type 0 where
  pub base_proof : r.Proof
  pub base_verified : r.verify base_vk base_proof ≡ true
  pub base_level : at (r.public_inputs base_proof) layout.level_pi_idx ≡ 0
  pub issuer :
      (i : ℕ)
      → i < layout.issuer_pk_pi_len
      → at t.issuer_pk_pis i ≡ at (r.public_inputs base_proof) (layout.issuer_pk_pi_start + i)
  pub original : List (List ℕ)
  pub original_commits : Commits h layout (r.public_inputs base_proof) original
  pub shown : List (List ℕ)
  pub shown_redacts : Redacts original shown
  pub disclosed :
      (i j : ℕ)
      → i < layout.num_max_attributes
      → j < num_hash_out_elts
      → at t.disclosed_pis (i * num_hash_out_elts + j) ≡ at (get_or shown i []) j

-- What the circuits leave open, since they connect the digest of the wrapper's key and not its cap:
-- the proof that the chain began with verifies under a key of the wrapper's digest whose cap is
-- another one.
pub record ShowsOtherCap (h : Hasher) (r : Recursion) (layout : BasePublicInputLayout)
    (own_vk : VerifierData) (t : PresentationTargets r) : Type 0 where
  pub disclosure : Discloses h r layout t
  pub same_digest : disclosure.wrapper_vk.circuit_digest ≡ own_vk.circuit_digest
  pub other_cap : disclosure.wrapper_vk.constants_sigmas_cap ≢ own_vk.constants_sigmas_cap

module _ (b : Builder) (h : Hasher) (r : Recursion) (layout : BasePublicInputLayout)
    (wf : IsLayout layout) (vk : VerifierData) (extracts : Extracts b h r layout vk) (count : ℕ)
    (base_vk own_vk : VerifierData) (unwraps : WrapperExtracts b r count base_vk own_vk) where
  -- A wrapper proof's public inputs begin with those of the base proof that it wraps.
  unwrapped :
      (t : JwtWrapperTargets r) (p : r.Proof)
      → holds (jwt_wrapper_circuit b r count base_vk t) ≡ true
      → wrapper_pis r t ≡ r.public_inputs p
      → (i : ℕ) → i < count
      → at (r.public_inputs p) i ≡ at (r.public_inputs t.base_proof) i
  unfolding wrapper_pis
  unwrapped t p e exposed i lt =
      let (_, same, size) = jwt_wrapper_circuit-wraps b r count base_vk t e in
      let inside : i < length t.outer_pis = omega (arith, size, lt) in
      ap (λ pis. at pis i) (sym exposed)
      ∙ get_or-append_left (t.outer_pis ++ t.wrapper_digest_pis)
          (vk_elements t.verifier_data_target) i 0
          (omega (arith, inside, length-append t.outer_pis t.wrapper_digest_pis))
      ∙ get_or-append_left t.outer_pis t.wrapper_digest_pis i 0 inside
      ∙ ap (λ pis. at pis i) same

  Discloses-ShowsBase :
      (t : PresentationTargets r)
      → layout.level_pi_idx < count
      → IssuerApart layout
      → (d : Discloses h r layout t) → d.wrapper_vk ≡ own_vk
      → ShowsBase h r layout base_vk t
  Discloses-ShowsBase t fits apart d key =
      let (w, satisfied, exposed) =
        unwraps d.wrapper (sym (ap (λ k. r.verify k d.wrapper) key) ∙ d.wrapper_verified) in
      let same = unwrapped w d.wrapper satisfied exposed in
      record {
        base_proof = w.base_proof;
        base_verified = (jwt_wrapper_circuit-wraps b r count base_vk w satisfied).0;
        base_level = sym (same layout.level_pi_idx fits) ∙ d.base_level;
        issuer = λ i lt.
            d.issuer i lt
            ∙ same (layout.issuer_pk_pi_start + i) (omega (arith, (apart i lt).0, fits));
        original = d.original;
        original_commits = record {
          count = d.original_commits.count;
          digests = d.original_commits.digests;
          root = λ i lt.
              d.original_commits.root i lt
              ∙ same (layout.com_pi_start + i) (omega (arith, wf.before_level, fits, lt));
        };
        shown = d.shown;
        shown_redacts = d.shown_redacts;
        disclosed = d.disclosed;
      }

  -- The key that the chain began with is the wrapper's own, unless its cap is another one.
  Discloses-cases :
      (t : PresentationTargets r)
      → layout.level_pi_idx < count
      → IssuerApart layout
      → length own_vk.circuit_digest ≡ num_hash_out_elts
      → ((j : ℕ) → j < num_hash_out_elts → at t.wrapper_digest_pis j ≡ at own_vk.circuit_digest j)
      → Discloses h r layout t
      → ShowsBase h r layout base_vk t ⊎ ShowsOtherCap h r layout own_vk t
  Discloses-cases t fits apart eo checked d =
      let named : d.wrapper_vk.circuit_digest ≡ own_vk.circuit_digest =
        eq_of_get_or d.wrapper_vk.circuit_digest own_vk.circuit_digest 0
          (d.wrapper_vk_digest_len ∙ sym eo)
          (λ j lt.
            let inside : j < num_hash_out_elts = omega (arith, lt, d.wrapper_vk_digest_len) in
            sym (d.named j inside) ∙ checked j inside) in
      let cap = d.wrapper_vk.constants_sigmas_cap in
      elim (Bool-cases (list_eq cap own_vk.constants_sigmas_cap)) [
        | inl same ↦
            let caps : cap ≡ own_vk.constants_sigmas_cap =
              list_eq_sound cap own_vk.constants_sigmas_cap same in
            inl (
              Discloses-ShowsBase t fits apart d
                (ap₂ (λ x y. record { circuit_digest = x; constants_sigmas_cap = y }) named caps))
        | inr other ↦ inr (record {
          disclosure = d;
          same_digest = named;
          other_cap =
              λ caps. absurd (ground (arith, other, ap (list_eq cap) caps, list_eq_refl cap));
        })
      ]

  -- The whole pipeline. If what verifies under the delegation key has a satisfying assignment, and
  -- so has what verifies under the key of the wrapper of one base key, then an assignment that
  -- satisfies the presentation circuit and names the digest of the wrapper's key shows a proof
  -- that verifies under the base key and is of level 0: the issuer's key is that proof's, and each
  -- slot shows a leaf that the proof commits to or zeros; or else its chain begins under a key of
  -- that digest with another cap, or there is a collision of the hash. The delegation key and the
  -- digest of the wrapper's key have the shape that the configuration fixes; in the layout the
  -- issuer's key stands before the level and outside the commitment, and the level within the base
  -- circuit's public inputs.
  pub presentation_circuit-ShowsBase :
      (t : PresentationTargets r)
      → length vk.circuit_digest ≡ num_hash_out_elts
      → length vk.constants_sigmas_cap ≡ r.cap_len
      → layout.level_pi_idx < count
      → IssuerApart layout
      → length own_vk.circuit_digest ≡ num_hash_out_elts
      → ((j : ℕ) → j < num_hash_out_elts → at t.wrapper_digest_pis j ≡ at own_vk.circuit_digest j)
      → holds (presentation b h r layout vk t) ≡ true
      → (ShowsBase h r layout base_vk t ⊎ ShowsOtherCap h r layout own_vk t) ⊎ Collision h
  presentation_circuit-ShowsBase t ed ec fits apart eo checked e =
      elim (presentation_circuit-Discloses b h r layout wf vk extracts t ed ec apart e) [
        | inr found ↦ inr found
        | inl d ↦ inl (Discloses-cases t fits apart eo checked d)
      ]
