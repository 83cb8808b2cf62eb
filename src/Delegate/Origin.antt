-- ===== src/Delegate/Origin.antt =====
-- Where a delegated credential comes from: the chain below a genuine proof, down to the wrapped
-- base credential.
use dac_from_legacy_credenti.Prelude.{
  at, ℕ, zero, suc, ◌+◌, ◌^◌, ◌≤◌, ◌<◌, ◌≡◌, ◌≢◌, sym, ap, subst, ◌∙◌, ◌⊎◌, inl, inr, true, false,
  List, length, eq_of_get_or, ℕ_discrete, arith,
}
use dac_from_legacy_credenti.Plonky2.Field.{Builder}
use dac_from_legacy_credenti.Plonky2.Hash.{Hasher, num_hash_out_elts}
use dac_from_legacy_credenti.Plonky2.Recursion.{Recursion, VerifierData}
use dac_from_legacy_credenti.Layout.{BasePublicInputLayout, base_pi_count}
use dac_from_legacy_credenti.Merkle.{is_power_of_two-pow}
use dac_from_legacy_credenti.Merkle.Mask.{
  masked_leaves, Redacts, Redacts-trans, masked_leaves-Redacts, length-masked_leaves,
  masked_leaves-four,
}
use dac_from_legacy_credenti.Merkle.InCircuit.{root_of_leaves}
use dac_from_legacy_credenti.Merkle.InCircuit.Binding.{
  Collision, Digests, root_of_leaves-binding, length-root_of_leaves,
}
use dac_from_legacy_credenti.Delegate.{in_commitment}
use dac_from_legacy_credenti.Delegate.Step.{previous_pis}
use dac_from_legacy_credenti.Delegate.Genuine.{
  IsLayout, Extracts, IsGenuine, Opened, Opened-FromWrapper, Opened-FromInner,
}
use dac_from_legacy_credenti.Delegate.Chain.{level, open_step, Opened-Levels, IsGenuine-levels}

-- A vector of leaves whose in-circuit root is the commitment in some public inputs.
pub record Commits (h : Hasher) (layout : BasePublicInputLayout) (pis : List ℕ)
    (leaves : List (List ℕ)) : Type 0 where
  pub count : length leaves ≡ layout.num_max_attributes
  pub digests : Digests leaves
  pub root :
      (i : ℕ)
      → i < num_hash_out_elts
      → at (root_of_leaves h leaves) i ≡ at pis (layout.com_pi_start + i)

-- The wrapped base credential from which a delegated one descends: the wrapper proof verifies
-- under a key with the digest that the delegated proof names, and is of level 0. All public
-- inputs before the level, but for the commitment, are the wrapper's. The cap is at most the
-- wrapper's. The leaves committed to are the wrapper's, each kept or replaced by the zero leaf.
pub record Origin (h : Hasher) (r : Recursion) (layout : BasePublicInputLayout) (p : r.Proof)
    : Type 0 where
  pub wrapper : r.Proof
  pub wrapper_vk : VerifierData
  pub wrapper_vk_digest_len : length wrapper_vk.circuit_digest ≡ num_hash_out_elts
  pub wrapper_verified : r.verify wrapper_vk wrapper ≡ true
  pub named :
      (j : ℕ)
      → j < num_hash_out_elts
      → at (r.public_inputs p) (base_pi_count layout + j) ≡ at wrapper_vk.circuit_digest j
  pub base_level : at (r.public_inputs wrapper) layout.level_pi_idx ≡ 0
  pub issuer :
      (i : ℕ)
      → i < layout.level_pi_idx
      → in_commitment layout i ≡ false
      → at (r.public_inputs p) i ≡ at (r.public_inputs wrapper) i
  pub capped :
      at (r.public_inputs p) layout.max_level_pi_idx
      ≤ at (r.public_inputs wrapper) layout.max_level_pi_idx
  pub original : List (List ℕ)
  pub current : List (List ℕ)
  pub original_commits : Commits h layout (r.public_inputs wrapper) original
  pub current_commits : Commits h layout (r.public_inputs p) current
  pub redacted : Redacts original current

-- Two vectors that commit to the same public inputs agree, or show a collision.
pub Commits-unique :
    (h : Hasher) (layout : BasePublicInputLayout) (pis : List ℕ) (xs ys : List (List ℕ)) (k : ℕ)
    → length ys ≡ 2 ^ k
    → Commits h layout pis xs
    → Commits h layout pis ys
    → (xs ≡ ys) ⊎ Collision h
Commits-unique h layout pis xs ys k e cx cy =
    let ex : length xs ≡ 2 ^ k = cx.count ∙ sym cy.count ∙ e in
    let lx = length-root_of_leaves h k xs cx.digests ex in
    let ly = length-root_of_leaves h k ys cy.digests e in
    root_of_leaves-binding h k xs ys cx.digests cy.digests ex e (
      eq_of_get_or (root_of_leaves h xs) (root_of_leaves h ys) 0 (lx ∙ sym ly)
        (λ i lt. cx.root i (omega (arith, lx)) ∙ sym (cy.root i (omega (arith, lx)))))

module _ (b : Builder) (h : Hasher) (r : Recursion) (layout : BasePublicInputLayout)
    (wf : IsLayout layout) (vk : VerifierData) (extracts : Extracts b h r layout vk) where
  abbrev IsOpened : r.Proof → Type 0
  IsOpened p = Opened b h r layout wf vk extracts p

  -- The commitment of the proof that a step extends is to the leaves that it witnesses.
  previous-Commits :
      (p : r.Proof) (o : IsOpened p) (pis : List ℕ)
      → previous_pis b h r layout o.targets ≡ pis
      → Commits h layout pis o.targets.attr_targets
  previous-Commits p o pis e =
      let a = o.step.attributes in
      record {
        count = a.leaf_count;
        digests = a.digests;
        root = λ i lt.
            a.committed i (omega (arith, wf.four)) ∙ ap (λ xs. at xs (layout.com_pi_start + i)) e;
      }

  -- The commitment that a step exposes is to the masked leaves.
  next-Commits :
      (p : r.Proof) (o : IsOpened p)
      → Commits h layout
          (r.public_inputs p)
          (masked_leaves o.targets.attr_targets o.targets.attribute_mask)
  unfolding base_pi_count
  next-Commits p o =
      let a = o.step.attributes in
      let t = o.targets in
      let same = a.mask_count ∙ sym a.leaf_count in
      record {
        count = length-masked_leaves t.attr_targets t.attribute_mask same ∙ a.leaf_count;
        digests = masked_leaves-four t.attr_targets t.attribute_mask a.digests;
        root = λ i lt.
            a.recommitted i (omega (arith, wf.four))
            ∙ o.reads (layout.com_pi_start + i) (omega (arith, wf.before_level, wf.cap_next));
      }

  -- What a step forwards, read through the proofs' public inputs.
  forwards :
      (p : r.Proof) (o : IsOpened p) (pis : List ℕ)
      → previous_pis b h r layout o.targets ≡ pis
      → (i : ℕ) → i < layout.level_pi_idx
      → in_commitment layout i ≡ false
      → at (r.public_inputs p) i ≡ at pis i
  unfolding base_pi_count
  forwards p o pis e i lt away =
      sym (o.reads i (omega (arith, wf.cap_next)))
      ∙ o.step.forwarded i lt away
      ∙ ap (λ xs. at xs i) e

  Opened-Redacts :
      (p : r.Proof) (o : IsOpened p)
      → Redacts o.targets.attr_targets
          (masked_leaves o.targets.attr_targets o.targets.attribute_mask)
  Opened-Redacts p o =
      masked_leaves-Redacts o.targets.attr_targets o.targets.attribute_mask
        (o.step.attributes.mask_count ∙ sym o.step.attributes.leaf_count)

  -- A first step begins at its wrapper.
  first_Origin :
      (p : r.Proof) (o : IsOpened p)
      → at o.targets.outer_pis layout.level_pi_idx ≡ 1
      → Origin h r layout p
  first_Origin p o e =
      let t = o.targets in
      let from = Opened-FromWrapper b h r layout wf vk extracts p o e in
      let ls = Opened-Levels b h r layout wf vk extracts p o in
      let lev = ap (λ xs. at xs layout.level_pi_idx) from.previous in
      let top = ap (λ xs. at xs layout.max_level_pi_idx) from.previous in
      record {
        wrapper = t.wrapper_proof;
        wrapper_vk = t.wrapper_vk;
        wrapper_vk_digest_len = o.step.wrapper_vk_digest_len;
        wrapper_verified = from.wrapper_verified;
        named = λ j lt. o.reads_digest j lt ∙ from.digest_named j lt;
        base_level = omega (arith, ls.up, lev, ls.level_is, e);
        issuer = forwards p o (r.public_inputs t.wrapper_proof) from.previous;
        capped = omega (arith, ls.tightens, top);
        original = t.attr_targets;
        current = masked_leaves t.attr_targets t.attribute_mask;
        original_commits = previous-Commits p o (r.public_inputs t.wrapper_proof) from.previous;
        current_commits = next-Commits p o;
        redacted = Opened-Redacts p o;
      }

  -- A later step begins where the proof below it began.
  later_Origin :
      (p : r.Proof) (o : IsOpened p)
      → at o.targets.outer_pis layout.level_pi_idx ≢ 1
      → Origin h r layout o.targets.inner_proof
      → Origin h r layout p ⊎ Collision h
  later_Origin p o ne below =
      let t = o.targets in
      let from = Opened-FromInner b h r layout wf vk extracts p o ne in
      let ls = Opened-Levels b h r layout wf vk extracts p o in
      let top = ap (λ xs. at xs layout.max_level_pi_idx) from.previous in
      let (k, power) = is_power_of_two-pow (length t.attr_targets) o.step.attributes.power in
      let here = previous-Commits p o (r.public_inputs t.inner_proof) from.previous in
      elim (Commits-unique h layout (r.public_inputs t.inner_proof) below.current t.attr_targets k
        power below.current_commits here) [
          | inr found ↦ inr found
          | inl same ↦ inl (record {
            wrapper = below.wrapper;
            wrapper_vk = below.wrapper_vk;
            wrapper_vk_digest_len = below.wrapper_vk_digest_len;
            wrapper_verified = below.wrapper_verified;
            named = λ j lt. o.reads_digest j lt ∙ from.digest_kept j lt ∙ below.named j lt;
            base_level = below.base_level;
            issuer = λ i lt away.
                forwards p o (r.public_inputs t.inner_proof) from.previous i lt away
                ∙ below.issuer i lt away;
            capped = omega (arith, ls.tightens, top, below.capped);
            original = below.original;
            current = masked_leaves t.attr_targets t.attribute_mask;
            original_commits = below.original_commits;
            current_commits = next-Commits p o;
            redacted =
                Redacts-trans below.original t.attr_targets
                  (masked_leaves t.attr_targets t.attribute_mask)
                  (subst (λ xs. Redacts below.original xs) same below.redacted)
                  (Opened-Redacts p o);
          })
        ]

  Origin-within :
      (n : ℕ) (p : r.Proof)
      → IsGenuine r vk p
      → level b h r layout wf vk extracts p ≤ n
      → Origin h r layout p ⊎ Collision h
  Origin-within zero p g le =
      absurd (omega (arith, IsGenuine-levels b h r layout wf vk extracts p g))
  Origin-within (suc n) p g le =
      let o = open_step b h r layout wf vk extracts p g in
      let ls = Opened-Levels b h r layout wf vk extracts p o in
      elim (ℕ_discrete (at o.targets.outer_pis layout.level_pi_idx) 1) [
        | yes e ↦ inl (first_Origin p o e)
        | no ne ↦
            let from = Opened-FromInner b h r layout wf vk extracts p o ne in
            let lev = ap (λ xs. at xs layout.level_pi_idx) from.previous in
            let (some, _, _) = IsGenuine-levels b h r layout wf vk extracts p g in
            elim (Origin-within n o.targets.inner_proof from.inner_genuine
              (omega (arith, ls.up, lev, some))) [
                | inr found ↦ inr found
                | inl below ↦ later_Origin p o ne below
              ]
      ]

  -- For a layout with the cap after the level, and if what verifies under the delegation key has a
  -- satisfying assignment, every genuine proof descends from a wrapped base credential as `Origin`
  -- says, or there is a collision of the hash.
  pub IsGenuine-Origin : (p : r.Proof) → IsGenuine r vk p → Origin h r layout p ⊎ Collision h
  IsGenuine-Origin p g = Origin-within (level b h r layout wf vk extracts p) p g (omega arith)
