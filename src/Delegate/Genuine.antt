-- ===== src/Delegate/Genuine.antt =====
-- A proof that verifies under the delegation circuit's key, opened to the step that it proves.
use dac_from_legacy_credenti.Prelude.{
  at, ℕ, ◌+◌, ◌≤◌, ◌<◌, ◌≡◌, ◌≢◌, refl, sym, ap, ◌∙◌, Bool, true, false, ◌++◌, length-append,
  get_or-append_left, get_or-append_right, if◌then◌else◌, ==_iff, arith,
}
use dac_from_legacy_credenti.Plonky2.Field.{Builder}
use dac_from_legacy_credenti.Plonky2.Hash.{Hasher, num_hash_out_elts}
use dac_from_legacy_credenti.Plonky2.Circuit.{holds}
use dac_from_legacy_credenti.Plonky2.Recursion.{Recursion, VerifierData, vk_elements}
use dac_from_legacy_credenti.Layout.{BasePublicInputLayout, base_pi_count}
use dac_from_legacy_credenti.Delegate.{DelegationTargets, delegation_circuit, exposed_pis}
use dac_from_legacy_credenti.Delegate.Step.{is_first, previous_pis}
use dac_from_legacy_credenti.Delegate.Sound.{IsStep, delegation_circuit-IsStep}

-- What the layout of a base circuit guarantees: the commitment has four elements, before the
-- level, and the cap follows the level.
pub record IsLayout (layout : BasePublicInputLayout) : Type 0 where
  pub four : layout.com_pi_len ≡ num_hash_out_elts
  pub before_level : layout.com_pi_start + num_hash_out_elts ≤ layout.level_pi_idx
  pub cap_next : layout.max_level_pi_idx ≡ layout.level_pi_idx + 1

-- Knowledge soundness of the proof system for one circuit: what verifies under `vk` has an
-- assignment that satisfies the delegation circuit and exposes the proof's public inputs.
abbrev pub Extracts :
    (b : Builder) (h : Hasher) (r : Recursion) → BasePublicInputLayout → VerifierData → Type 0
Extracts b h r layout vk =
    (p : r.Proof)
    → r.verify vk p ≡ true
    → (t : DelegationTargets r) × (holds (delegation_circuit b h r layout t) ≡ true)
      × (exposed_pis b h r t ≡ r.public_inputs p)

-- A proof that verifies under the delegation key and carries that key, as the presentation
-- circuit demands of the proof that it wraps.
pub record IsGenuine (r : Recursion) (vk : VerifierData) (p : r.Proof) : Type 0 where
  pub verified : r.verify vk p ≡ true
  pub key : r.vk_of (r.public_inputs p) ≡ vk

module _ (b : Builder) (h : Hasher) (r : Recursion) (layout : BasePublicInputLayout)
    (wf : IsLayout layout) (vk : VerifierData) (extracts : Extracts b h r layout vk) where
  abbrev pub level_of : r.Proof → ℕ
  level_of p = at (r.public_inputs p) layout.level_pi_idx

  abbrev pub cap_of : r.Proof → ℕ
  cap_of p = at (r.public_inputs p) layout.max_level_pi_idx

  -- The step behind a genuine proof, read through the proof's public inputs.
  pub record Opened (p : r.Proof) : Type 0 where
    pub targets : DelegationTargets r
    pub step : IsStep b h r layout targets
    pub same_key : targets.verifier_data_target ≡ vk
    pub reads :
        (i : ℕ) → i < base_pi_count layout → at targets.outer_pis i ≡ at (r.public_inputs p) i
    pub reads_digest :
        (j : ℕ)
        → j < num_hash_out_elts
        → at (r.public_inputs p) (base_pi_count layout + j) ≡ at targets.wrapper_digest_pis j

  pub IsGenuine-Opened : (p : r.Proof) → IsGenuine r vk p → Opened p
  unfolding exposed_pis
  IsGenuine-Opened p g =
      let (t, sat, pis) = extracts p g.verified in
      let s = delegation_circuit-IsStep b h r layout t sat in
      let front = t.outer_pis ++ t.wrapper_digest_pis in
      let own = vk_elements t.verifier_data_target in
      let front_len = length-append t.outer_pis t.wrapper_digest_pis in
      record {
        targets = t;
        step = s;
        same_key =
            sym (r.vk_of-append front t.verifier_data_target s.vk_digest_len s.vk_cap_len)
            ∙ ap r.vk_of pis
            ∙ g.key;
        reads = λ i lt.
            sym
              (get_or-append_left t.outer_pis t.wrapper_digest_pis i 0 (omega (arith, s.outer_len)))
            ∙ sym (get_or-append_left front own i 0 (omega (arith, s.outer_len, front_len)))
            ∙ ap (λ xs. at xs i) pis;
        reads_digest = λ j lt.
            ap (λ xs. at xs (base_pi_count layout + j)) (sym pis)
            ∙ get_or-append_left front own (base_pi_count layout + j) 0
                (omega (arith, s.outer_len, s.digest_len, front_len))
            ∙ get_or-append_right t.outer_pis t.wrapper_digest_pis (base_pi_count layout + j) j 0
                (omega (arith, s.outer_len));
      }

  -- A genuine proof either extends a wrapper proof, at level 1, or another genuine proof.
  pub record FromWrapper (o : DelegationTargets r) : Type 0 where
    pub wrapper_verified : r.verify o.wrapper_vk o.wrapper_proof ≡ true
    pub previous : previous_pis b h r layout o ≡ r.public_inputs o.wrapper_proof
    pub digest_named :
        (j : ℕ)
        → j < num_hash_out_elts
        → at o.wrapper_digest_pis j ≡ at o.wrapper_vk.circuit_digest j

  pub record FromInner (o : DelegationTargets r) : Type 0 where
    pub inner_genuine : IsGenuine r vk o.inner_proof
    pub previous : previous_pis b h r layout o ≡ r.public_inputs o.inner_proof
    pub digest_kept :
        (j : ℕ)
        → j < num_hash_out_elts
        → at o.wrapper_digest_pis j ≡ at (r.public_inputs o.inner_proof) (base_pi_count layout + j)

  if_true : {A : Type 0} (c : Bool) (x y : A) → c ≡ true → (if c then x else y) ≡ x
  if_true c x y e = rw e refl

  if_false : {A : Type 0} (c : Bool) (x y : A) → c ≡ false → (if c then x else y) ≡ y
  if_false c x y e = rw e refl

  pub Opened-FromWrapper :
      (p : r.Proof) (o : Opened p)
      → at o.targets.outer_pis layout.level_pi_idx ≡ 1
      → FromWrapper o.targets
  Opened-FromWrapper p o e =
      let t = o.targets in
      let c = is_first b h r layout t in
      let yes_first : c ≡ true = (==_iff (at t.outer_pis layout.level_pi_idx) 1).1 e in
      record {
        wrapper_verified =
            sym (
              if_true c (r.verify t.wrapper_vk t.wrapper_proof)
                (r.verify t.verifier_data_target t.inner_proof) yes_first)
            ∙ o.step.verified;
        previous =
            if_true c (r.public_inputs t.wrapper_proof) (r.public_inputs t.inner_proof) yes_first;
        digest_named = λ j lt.
            o.step.digest j lt
            ∙ if_true c (at t.wrapper_vk.circuit_digest j)
                (at (r.public_inputs t.inner_proof) (base_pi_count layout + j)) yes_first;
      }

  pub Opened-FromInner :
      (p : r.Proof) (o : Opened p)
      → at o.targets.outer_pis layout.level_pi_idx ≢ 1
      → FromInner o.targets
  Opened-FromInner p o ne =
      let t = o.targets in
      let c = is_first b h r layout t in
      let later : c ≡ false = ground (arith, ==_iff (at t.outer_pis layout.level_pi_idx) 1) in
      let checked =
        sym (
          if_false c (r.verify t.wrapper_vk t.wrapper_proof)
            (r.verify t.verifier_data_target t.inner_proof) later)
        ∙ o.step.verified in
      record {
        inner_genuine = record {
          verified = ap (λ k. r.verify k t.inner_proof) (sym o.same_key) ∙ checked;
          key = o.step.carried ∙ o.same_key;
        };
        previous =
            if_false c (r.public_inputs t.wrapper_proof) (r.public_inputs t.inner_proof) later;
        digest_kept = λ j lt.
            o.step.digest j lt
            ∙ if_false c (at t.wrapper_vk.circuit_digest j)
                (at (r.public_inputs t.inner_proof) (base_pi_count layout + j)) later;
      }
