-- ===== src/Present/Witness/Complete.antt =====
-- The assignment of an honest presentation, against the circuit of src/circuits/present.rs.
use dac_from_legacy_credenti.Prelude.{
  ℕ, ◌+◌, ◌*◌, ◌^◌, ◌≤◌, ◌<◌, ◌≡◌, refl, sym, ap, ◌∙◌, Bool, true, false, List, [], map, at, get_or,
  length, length-map, ==_iff, All, arith,
}
use dac_from_legacy_credenti.Prelude.Outcome.{Result, ok}
use dac_from_legacy_credenti.Plonky2.Field.{Builder}
use dac_from_legacy_credenti.Plonky2.Hash.{Hasher, num_hash_out_elts}
use dac_from_legacy_credenti.Plonky2.Circuit.{
  holds, connect, virtual_target, virtual_targets, are_elements,
}
use dac_from_legacy_credenti.Plonky2.Recursion.{Recursion, VerifierData, vk_elements, virtual_proof}
use dac_from_legacy_credenti.Layout.{BasePublicInputLayout, base_pi_count}
use dac_from_legacy_credenti.Credential.Attribute.{Attribute}
use dac_from_legacy_credenti.Merkle.{
  attribute_to_hashed_leaf, is_power_of_two, merkle_root_from_leaves,
}
use dac_from_legacy_credenti.Merkle.InCircuit.{root_of_leaves}
use dac_from_legacy_credenti.Delegate.{virtual_leaves, num_public_inputs}
use dac_from_legacy_credenti.Present.{
  PresentationTargets, expose_rule, key_rule, disclose_slot, disclosure_rule, presentation_circuit,
}
use dac_from_legacy_credenti.Present.Sound.{presentation}
use dac_from_legacy_credenti.Present.Witness.{
  slice_of, generate_disclosed, build_presentation_witness,
}
use dac_from_legacy_credenti.Plonky2.Satisfy.{range-for_each, All-are_elements}
use dac_from_legacy_credenti.Present.Witness.Elements.{
  at-slice_of, length-slice_of, Elements-virtual_targets, Elements-slice_of,
  generate_disclosed-Elements, generate_disclosed-at, virtual_leaves-IsLeaf,
  attribute_to_hashed_leaf-IsLeaf, IsLeaf,
}

module _ (b : Builder) (h : Hasher) (r : Recursion) (layout : BasePublicInputLayout)
    (vk : VerifierData) where
  -- A holder's delegation proof, which verifies and carries the delegation key at its end, with
  -- the attributes that it commits to.
  pub record IsHeld (p : r.Proof) (attributes : List Attribute) : Type 0 where
    pub verified : r.verify vk p ≡ true
    pub count : length (r.public_inputs p) ≡ num_public_inputs b h r layout
    pub elements : All (λ v. v < b.order) (r.public_inputs p)
    pub key :
        (i : ℕ)
        → i < num_hash_out_elts + r.cap_len
        → at (r.public_inputs p) (base_pi_count layout + num_hash_out_elts + i)
          ≡ at (vk_elements vk) i
    pub committed :
        (i : ℕ)
        → i < num_hash_out_elts
        → at (root_of_leaves h (map (attribute_to_hashed_leaf h) attributes)) i
          ≡ at (r.public_inputs p) (layout.com_pi_start + i)
    pub slots : length attributes ≡ layout.num_max_attributes
    pub octets : All (λ a. All (λ x. x < 256) a.bytes) attributes

  -- What the layout has to fit, for the circuit to be built.
  pub record Fits : Type 0 where
    pub power : is_power_of_two layout.num_max_attributes ≡ true
    pub some_slots : 0 < layout.num_max_attributes
    pub issuer_within :
        layout.issuer_pk_pi_start + layout.issuer_pk_pi_len ≤ num_public_inputs b h r layout
    pub com_within : layout.com_pi_start + layout.com_pi_len ≤ num_public_inputs b h r layout
    pub com_four : layout.com_pi_len ≡ 4

  abbrev pub assignment : r.Proof → List Attribute → List Bool → ℕ → Result (PresentationTargets r)
  assignment =
      build_presentation_witness b h r (num_public_inputs b h r layout) layout.issuer_pk_pi_start
        layout.issuer_pk_pi_len layout.num_max_attributes (base_pi_count layout)

  slice_of-expose_rule :
      (pis : List ℕ) (start n : ℕ) → holds (expose_rule start n (slice_of pis start n) pis) ≡ true
  unfolding expose_rule
  slice_of-expose_rule pis start n =
      range-for_each (λ i. connect (at (slice_of pis start n) i) (at pis (start + i))) n
        (λ i lt.
          (==_iff (at (slice_of pis start n) i) (at pis (start + i))).1
            (at-slice_of pis start n i lt))

  committed-expose_rule :
      (pis root : List ℕ) (start n : ℕ)
      → ((i : ℕ) → i < n → at root i ≡ at pis (start + i))
      → holds (expose_rule start n root pis) ≡ true
  unfolding expose_rule
  committed-expose_rule pis root start n f =
      range-for_each (λ i. connect (at root i) (at pis (start + i))) n
        (λ i lt. (==_iff (at root i) (at pis (start + i))).1 (f i lt))

  carried-key_rule :
      (pis : List ℕ) (start : ℕ)
      → ((i : ℕ) → i < num_hash_out_elts + r.cap_len → at pis (start + i) ≡ at (vk_elements vk) i)
      → holds (key_rule start r.cap_len vk pis) ≡ true
  unfolding key_rule
  carried-key_rule pis start f =
      range-for_each (λ i. connect (at pis (start + i)) (at (vk_elements vk) i))
        (num_hash_out_elts + r.cap_len)
        (λ i lt. (==_iff (at pis (start + i)) (at (vk_elements vk) i)).1 (f i lt))

  generate_disclosed-disclosure_rule :
      (n : ℕ) (leaves : List (List ℕ)) (reveal : List Bool)
      → length leaves ≡ n
      → length reveal ≡ length leaves
      → All (IsLeaf b) leaves
      → holds (disclosure_rule b n (generate_disclosed b leaves reveal) leaves reveal) ≡ true
  unfolding disclosure_rule disclose_slot
  generate_disclosed-disclosure_rule n leaves reveal e er a =
      let shown = generate_disclosed b leaves reveal in
      range-for_each (disclose_slot b shown leaves reveal) n (λ i li.
        range-for_each
          (λ j.
            connect (at shown (i * 4 + j))
              (b.select (get_or reveal i false) (at (get_or leaves i []) j) 0))
          4
          (λ j lj.
            (==_iff (at shown (i * 4 + j))
                (b.select (get_or reveal i false) (at (get_or leaves i []) j) 0)).1
              (generate_disclosed-at b leaves reveal i j a er (omega (arith, e)) lj)))

  -- A holder of a delegation proof that verifies and carries the delegation key, with the
  -- attributes that it commits to, a reveal bit for each slot and a nonce of 32 bits, gets
  -- an assignment, and it satisfies the presentation circuit, if the layout fits the circuit and
  -- the hash takes field elements to field elements.
  pub build_presentation_witness-holds :
      (p : r.Proof) (attributes : List Attribute) (reveal : List Bool) (nonce : ℕ)
      → Fits
      → ((xs : List ℕ) → All (λ v. v < b.order) xs → All (λ v. v < b.order) (h.hash_or_noop xs))
      → IsHeld p attributes
      → length reveal ≡ layout.num_max_attributes
      → nonce < 2 ^ 32
      → (t : PresentationTargets r) × (assignment p attributes reveal nonce ≡ ok t)
        × (holds (presentation b h r layout vk t) ≡ true)
  unfolding build_presentation_witness presentation_circuit num_public_inputs virtual_target
      virtual_targets virtual_leaves merkle_root_from_leaves virtual_proof
  build_presentation_witness-holds p attributes reveal nonce fits els held er small =
      let pis = r.public_inputs p in
      let leaves = map (attribute_to_hashed_leaf h) attributes in
      let n = layout.num_max_attributes in
      let start = base_pi_count layout + num_hash_out_elts in
      let issuer = slice_of pis layout.issuer_pk_pi_start layout.issuer_pk_pi_len in
      let digest = slice_of pis (base_pi_count layout) num_hash_out_elts in
      let shown = generate_disclosed b leaves reveal in
      let slots : length leaves ≡ n =
        length-map (attribute_to_hashed_leaf h) attributes ∙ held.slots in
      let are_leaves = attribute_to_hashed_leaf-IsLeaf b h attributes els held.octets in
      let (shown_len, shown_elements) =
        generate_disclosed-Elements b leaves reveal are_leaves (er ∙ sym slots) in
      let issuer_ok : holds (virtual_targets b layout.issuer_pk_pi_len issuer) ≡ true =
        Elements-virtual_targets b layout.issuer_pk_pi_len issuer
          (length-slice_of pis layout.issuer_pk_pi_start layout.issuer_pk_pi_len)
          (Elements-slice_of b pis layout.issuer_pk_pi_start layout.issuer_pk_pi_len
            held.elements) in
      let digest_ok : holds (virtual_targets b num_hash_out_elts digest) ≡ true =
        Elements-virtual_targets b num_hash_out_elts digest
          (length-slice_of pis (base_pi_count layout) num_hash_out_elts)
          (Elements-slice_of b pis (base_pi_count layout) num_hash_out_elts held.elements) in
      let shown_ok : holds (virtual_targets b (n * num_hash_out_elts) shown) ≡ true =
        Elements-virtual_targets b (n * num_hash_out_elts) shown (shown_len ∙ ap (λ k. k * 4) slots)
          shown_elements in
      let leaves_ok : holds (virtual_leaves b n leaves) ≡ true =
        virtual_leaves-IsLeaf b n leaves slots are_leaves in
      let pis_ok : are_elements b pis ≡ true = All-are_elements b pis held.elements in
      let expose_issuer =
        slice_of-expose_rule pis layout.issuer_pk_pi_start layout.issuer_pk_pi_len in
      let expose_digest = slice_of-expose_rule pis (base_pi_count layout) num_hash_out_elts in
      let key = carried-key_rule pis start held.key in
      let root =
        committed-expose_rule pis (root_of_leaves h leaves) layout.com_pi_start num_hash_out_elts
          held.committed in
      let disclosed =
        generate_disclosed-disclosure_rule n leaves reveal slots (er ∙ sym slots) are_leaves in
      let power : is_power_of_two (length leaves) ≡ true = ap is_power_of_two slots ∙ fits.power in
      let nonce_ok : nonce < b.order = omega (arith, b.u32_lt_order) in
      let t : PresentationTargets r = record {
        issuer_pk_pis = issuer;
        disclosed_pis = shown;
        nonce_pi = nonce;
        wrapper_digest_pis = digest;
        leaf_digests = leaves;
        reveal = reveal;
        inner_delegation_proof = p;
      } in
      let built : assignment p attributes reveal nonce ≡ ok t =
        (rw
          (
            (==_iff (length pis) (num_public_inputs b h r layout)).1 held.count,
            (==_iff (length attributes) n).1 held.slots,
            (==_iff (length reveal) n).1 er,
          )
          refl) in
      (t, built, ground arith)
