-- ===== src/Present/Sound.antt =====
-- What an assignment that satisfies the presentation circuit says.
use dac_from_legacy_credenti.Prelude.{
  at, ℕ, zero, suc, ◌+◌, ◌*◌, ◌<◌, ◌≡◌, refl, sym, ap, ◌∙◌, Bool, true, false, List, [], ◌∷◌, ◌++◌,
  length, get_or, take, drop, length-append, length-take, length-drop, take-append-drop,
  eq_of_get_or, get_or-append_right, ◌==◌, ==_iff, if◌then◌else◌, arith,
}
use dac_from_legacy_credenti.Plonky2.Field.{Builder}
use dac_from_legacy_credenti.Plonky2.Hash.{Hasher, num_hash_out_elts}
use dac_from_legacy_credenti.Plonky2.Circuit.{
  Circuit, holds, for_each-range, virtual_target, virtual_targets,
}
use dac_from_legacy_credenti.Plonky2.Recursion.{Recursion, VerifierData, vk_elements, virtual_proof}
use dac_from_legacy_credenti.Layout.{BasePublicInputLayout, base_pi_count}
use dac_from_legacy_credenti.Merkle.{is_power_of_two, merkle_root_from_leaves, zero_leaf}
use dac_from_legacy_credenti.Merkle.InCircuit.{root_of_leaves}
use dac_from_legacy_credenti.Merkle.Mask.{masked_leaves}
use dac_from_legacy_credenti.Delegate.{virtual_leaves, num_public_inputs}
use dac_from_legacy_credenti.Delegate.Rules.{select-if}
use dac_from_legacy_credenti.Delegate.Step.{virtual_leaves-Digests}
use dac_from_legacy_credenti.Delegate.Genuine.{IsGenuine}
use dac_from_legacy_credenti.Delegate.Origin.{Commits}
use dac_from_legacy_credenti.Present.{
  PresentationTargets, expose_rule, key_rule, disclose_slot, disclosure_rule, presentation_circuit,
}

pub expose_rule-eq :
    (start len : ℕ) (targets pis : List ℕ)
    → holds (expose_rule start len targets pis) ≡ true
    → (i : ℕ) → i < len
    → at targets i ≡ at pis (start + i)
unfolding expose_rule
expose_rule-eq start len targets pis e i lt =
    (==_iff (at targets i) (at pis (start + i))).0 (for_each-range _ len i e lt)

-- A slot of masked leaves, read at its index.
masked_leaves-at :
    (leaves : List (List ℕ)) (bits : List Bool) (i j : ℕ)
    → length bits ≡ length leaves
    → i < length leaves
    → at (get_or (masked_leaves leaves bits) i []) j
      ≡ (if get_or bits i false then at (get_or leaves i []) j else at zero_leaf j)
masked_leaves-at [] bits i j e lt = absurd (omega arith)
masked_leaves-at (leaf ∷ leaves) [] i j e lt = absurd (omega arith)
masked_leaves-at (leaf ∷ leaves) (true ∷ bits) zero j e lt = refl
masked_leaves-at (leaf ∷ leaves) (false ∷ bits) zero j e lt = refl
masked_leaves-at (leaf ∷ leaves) (keep ∷ bits) (suc i) j e lt =
    masked_leaves-at leaves bits i j (omega arith) (omega arith)

zero_leaf-at : (j : ℕ) → at zero_leaf j ≡ 0
zero_leaf-at zero = refl
zero_leaf-at (suc zero) = refl
zero_leaf-at (suc (suc zero)) = refl
zero_leaf-at (suc (suc (suc zero))) = refl
zero_leaf-at (suc (suc (suc (suc j)))) = refl

module _ (b : Builder) where
  disclosure_rule-masked :
      (n : ℕ) (disclosed : List ℕ) (leaves : List (List ℕ)) (reveal : List Bool)
      → length leaves ≡ n
      → length reveal ≡ n
      → holds (disclosure_rule b n disclosed leaves reveal) ≡ true
      → (i j : ℕ) → i < n
      → j < num_hash_out_elts
      → at disclosed (i * num_hash_out_elts + j) ≡ at (get_or (masked_leaves leaves reveal) i []) j
  unfolding disclosure_rule disclose_slot
  disclosure_rule-masked n disclosed leaves reveal el er e i j li lj =
      let slot = for_each-range (disclose_slot b disclosed leaves reveal) n i e li in
      let joined = for_each-range _ num_hash_out_elts j slot lj in
      let keep = get_or reveal i false in
      let element = at (get_or leaves i []) j in
      (==_iff (at disclosed (i * num_hash_out_elts + j)) (b.select keep element 0)).0 joined
      ∙ select-if b keep element 0
      ∙ ap (λ z. if keep then element else z) (sym (zero_leaf-at j))
      ∙ sym (masked_leaves-at leaves reveal i j (er ∙ sym el) (omega (arith, el)))

-- Public inputs that end with the elements of a key.
ends_with :
    (xs ys : List ℕ) (start : ℕ)
    → length xs ≡ start + length ys
    → ((i : ℕ) → i < length ys → at xs (start + i) ≡ at ys i)
    → xs ≡ take start xs ++ ys
ends_with xs ys start e each =
    let tail_len = length-drop start xs in
    let head_len = length-take start xs in
    let joined = take-append-drop start xs in
    let tail = eq_of_get_or (drop start xs) ys 0 (omega arith) (λ i lt.
      sym (
        ap (λ l. at l (start + i)) (sym joined)
        ∙ get_or-append_right (take start xs) (drop start xs) (start + i) i 0 (omega arith))
      ∙ each i (omega arith)) in
    sym joined ∙ ap (λ l. take start xs ++ l) tail

key_rule-carried :
    (r : Recursion) (start : ℕ) (vk : VerifierData) (pis : List ℕ)
    → length vk.circuit_digest ≡ num_hash_out_elts
    → length vk.constants_sigmas_cap ≡ r.cap_len
    → start + (num_hash_out_elts + r.cap_len) ≡ length pis
    → holds (key_rule start r.cap_len vk pis) ≡ true
    → r.vk_of pis ≡ vk
unfolding key_rule
key_rule-carried r start vk pis ed ec el e =
    let own_len = length-append vk.circuit_digest vk.constants_sigmas_cap in
    let split = ends_with pis (vk_elements vk) start (omega arith) (λ i lt.
      (==_iff (at pis (start + i)) (at (vk_elements vk) i)).0
        (for_each-range _ (num_hash_out_elts + r.cap_len) i e (omega arith))) in
    ap r.vk_of split ∙ r.vk_of-append (take start pis) vk ed ec

module _ (b : Builder) (h : Hasher) (r : Recursion) (layout : BasePublicInputLayout)
    (vk : VerifierData) where
  -- The presentation circuit over the delegation circuit of a layout.
  abbrev pub presentation : PresentationTargets r → Circuit (List ℕ)
  presentation t =
      presentation_circuit b h r (num_public_inputs b h r layout) vk layout.issuer_pk_pi_start
        layout.issuer_pk_pi_len layout.com_pi_start layout.com_pi_len layout.num_max_attributes
        (base_pi_count layout) t

  -- A presentation: of a genuine delegation proof, whose issuer key and wrapper digest it shows;
  -- of the leaves that the proof commits to it shows those revealed, and zeros for the others.
  pub record IsPresentation (t : PresentationTargets r) : Type 0 where
    pub genuine : IsGenuine r vk t.inner_delegation_proof
    pub issuer :
        (i : ℕ)
        → i < layout.issuer_pk_pi_len
        → at t.issuer_pk_pis i
          ≡ at (r.public_inputs t.inner_delegation_proof) (layout.issuer_pk_pi_start + i)
    pub digest :
        (j : ℕ)
        → j < num_hash_out_elts
        → at t.wrapper_digest_pis j
          ≡ at (r.public_inputs t.inner_delegation_proof) (base_pi_count layout + j)
    pub commits : Commits h layout (r.public_inputs t.inner_delegation_proof) t.leaf_digests
    pub power : is_power_of_two (length t.leaf_digests) ≡ true
    pub reveal_count : length t.reveal ≡ layout.num_max_attributes
    pub disclosed :
        (i j : ℕ)
        → i < layout.num_max_attributes
        → j < num_hash_out_elts
        → at t.disclosed_pis (i * num_hash_out_elts + j)
          ≡ at (get_or (masked_leaves t.leaf_digests t.reveal) i []) j

  -- For a delegation key of the shape that the configuration fixes, an assignment that satisfies
  -- the presentation circuit presents a genuine delegation proof: issuer key and wrapper digest
  -- are the proof's, the leaves are those it commits to, and each slot shows its leaf if it is
  -- revealed, and zeros if not.
  pub presentation_circuit-IsPresentation :
      (t : PresentationTargets r)
      → length vk.circuit_digest ≡ num_hash_out_elts
      → length vk.constants_sigmas_cap ≡ r.cap_len
      → holds (presentation t) ≡ true
      → IsPresentation t
  unfolding presentation_circuit virtual_target virtual_targets virtual_proof virtual_leaves
      merkle_root_from_leaves
  presentation_circuit-IsPresentation t ed ec e =
      let pis = r.public_inputs t.inner_delegation_proof in
      let n = layout.num_max_attributes in
      let count = num_public_inputs b h r layout in
      let start = base_pi_count layout + num_hash_out_elts in
      let root = root_of_leaves h t.leaf_digests in
      let sized : (length pis == count) ≡ true = ground arith in
      let last : (start + (num_hash_out_elts + r.cap_len) == count) ≡ true = ground arith in
      let key : holds (key_rule start r.cap_len vk pis) ≡ true = ground arith in
      let shape : holds (virtual_leaves b n t.leaf_digests) ≡ true = ground arith in
      let issuer : holds
            (expose_rule layout.issuer_pk_pi_start layout.issuer_pk_pi_len t.issuer_pk_pis pis)
          ≡ true =
        ground arith in
      let digest : holds
            (expose_rule (base_pi_count layout) num_hash_out_elts t.wrapper_digest_pis pis)
          ≡ true =
        ground arith in
      let committed : holds (expose_rule layout.com_pi_start num_hash_out_elts root pis) ≡ true =
        ground arith in
      let shown : holds (disclosure_rule b n t.disclosed_pis t.leaf_digests t.reveal) ≡ true =
        ground arith in
      let masked : (length t.reveal == n) ≡ true = ground arith in
      let (leaf_count, digests) = virtual_leaves-Digests b h r layout n t.leaf_digests shape in
      let reveal_count = (==_iff (length t.reveal) n).0 masked in
      record {
        genuine = record {
          verified = ground arith;
          key =
              key_rule-carried r start vk pis ed ec
                ((==_iff (start + (num_hash_out_elts + r.cap_len)) count).0 last
                  ∙ sym ((==_iff (length pis) count).0 sized))
                key;
        };
        issuer =
            expose_rule-eq layout.issuer_pk_pi_start layout.issuer_pk_pi_len t.issuer_pk_pis pis
              issuer;
        digest =
            expose_rule-eq (base_pi_count layout) num_hash_out_elts t.wrapper_digest_pis pis digest;
        commits = record {
          count = leaf_count;
          digests = digests;
          root = expose_rule-eq layout.com_pi_start num_hash_out_elts root pis committed;
        };
        power = ground arith;
        reveal_count = reveal_count;
        disclosed =
            disclosure_rule-masked b n t.disclosed_pis t.leaf_digests t.reveal leaf_count
              reveal_count shown;
      }
