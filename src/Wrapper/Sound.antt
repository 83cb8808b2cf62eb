-- ===== src/Wrapper/Sound.antt =====
-- What the wrapper circuit enforces, and the prover's assignment against it.
use dac_from_legacy_credenti.Prelude.{
  ℕ, ◌<◌, ◌≡◌, refl, sym, ap₂, ◌∙◌, true, ◌&&◌, List, ◌++◌, map, All, All-append, at, length,
  length-map, length-range, range, eq_of_get_or, leb, ◌==◌, ==_iff, &&-split, arith,
}
use dac_from_legacy_credenti.Prelude.Index.{get_or-map-range}
use dac_from_legacy_credenti.Prelude.Outcome.{ok}
use dac_from_legacy_credenti.Plonky2.Field.{Builder}
use dac_from_legacy_credenti.Plonky2.Hash.{num_hash_out_elts}
use dac_from_legacy_credenti.Plonky2.Circuit.{
  holds, connect, for_each, for_each-range, virtual_targets, virtual_targets-holds, are_elements,
}
use dac_from_legacy_credenti.Plonky2.Recursion.{
  Recursion, VerifierData, vk_elements, virtual_proof, virtual_verifier_data,
}
use dac_from_legacy_credenti.Plonky2.Satisfy.{range-for_each, All-are_elements}
use dac_from_legacy_credenti.Wrapper.{
  JwtWrapperTargets, wrapper_pis, prove_jwt_wrapper, jwt_wrapper_circuit,
}

module _ (b : Builder) (r : Recursion) (base_pi_count : ℕ) (base_vk : VerifierData) where
  -- An assignment that satisfies the wrapper circuit wraps a proof of the base circuit: it
  -- verifies under the base key, and the forwarded public inputs are all of its own, in order.
  pub jwt_wrapper_circuit-wraps :
      (t : JwtWrapperTargets r)
      → holds (jwt_wrapper_circuit b r base_pi_count base_vk t) ≡ true
      → (r.verify base_vk t.base_proof ≡ true)
        × (t.outer_pis ≡ r.public_inputs t.base_proof)
        × (length t.outer_pis ≡ base_pi_count)
  unfolding jwt_wrapper_circuit virtual_targets virtual_verifier_data virtual_proof
  jwt_wrapper_circuit-wraps t e =
      let (outer, s1) = &&-split _ _ e in
      let (digest, s2) = &&-split _ _ s1 in
      let (own, s3) = &&-split _ _ s2 in
      let (base, s4) = &&-split _ _ s3 in
      let (verified, s5) = &&-split _ _ s4 in
      let pis = r.public_inputs t.base_proof in
      let body = λ (i : ℕ). connect (at t.outer_pis i) (at pis i) in
      let joined : holds (for_each body (range base_pi_count)) ≡ true = (&&-split _ _ s5).0 in
      let count = (virtual_targets-holds b base_pi_count t.outer_pis outer).0 in
      let base_count : length pis ≡ base_pi_count =
        (virtual_targets-holds b base_pi_count pis base).0 in
      (
        verified,
        eq_of_get_or t.outer_pis pis 0 (count ∙ sym base_count) (λ i lt.
            (==_iff (at t.outer_pis i) (at pis i)).0
              (for_each-range body base_pi_count i joined (omega (arith, lt, count)))),
        count,
      )

  -- What an honest prover has: a proof that verifies under the base key, with the public inputs
  -- of the base circuit, and the wrapper's own key in the shape that the configuration fixes.
  pub record IsHonest (own_vk : VerifierData) (p : r.Proof) : Type 0 where
    pub verified : r.verify base_vk p ≡ true
    pub count : length (r.public_inputs p) ≡ base_pi_count
    pub elements : All (λ v. v < b.order) (r.public_inputs p)
    pub digest_len : length own_vk.circuit_digest ≡ num_hash_out_elts
    pub cap_len : length own_vk.constants_sigmas_cap ≡ r.cap_len
    pub key_elements : All (λ v. v < b.order) (vk_elements own_vk)

  copy-eq : (xs : List ℕ) (n : ℕ) → length xs ≡ n → map (λ i. at xs i) (range n) ≡ xs
  copy-eq xs n e =
      let size = length-map (λ i. at xs i) (range n) ∙ length-range n in
      eq_of_get_or (map (λ i. at xs i) (range n)) xs 0 (size ∙ sym e)
        (λ i lt. get_or-map-range (λ i. at xs i) n i 0 (omega (arith, lt, size)))

  sized :
      (n : ℕ) (xs : List ℕ)
      → length xs ≡ n
      → All (λ v. v < b.order) xs
      → (length xs == n && are_elements b xs) ≡ true
  sized n xs e h = ap₂ ◌&&◌ ((==_iff (length xs) n).1 e) (All-are_elements b xs h)

  -- The assignment that an honest prover writes satisfies the wrapper circuit, and exposes the
  -- base proof's public inputs, the wrapper's digest and the wrapper's key.
  pub prove_jwt_wrapper-holds :
      (own_vk : VerifierData) (p : r.Proof)
      → IsHonest own_vk p
      → (t : JwtWrapperTargets r) × (prove_jwt_wrapper r base_pi_count own_vk p ≡ ok t)
        × (holds (jwt_wrapper_circuit b r base_pi_count base_vk t) ≡ true)
        × (wrapper_pis r t ≡ (r.public_inputs p ++ own_vk.circuit_digest) ++ vk_elements own_vk)
  unfolding jwt_wrapper_circuit virtual_targets virtual_verifier_data virtual_proof
      prove_jwt_wrapper wrapper_pis
  prove_jwt_wrapper-holds own_vk p h =
      let pis = r.public_inputs p in
      let enough : leb base_pi_count (length pis) ≡ true = ground (arith, h.count) in
      let same = copy-eq pis base_pi_count h.count in
      let same_digest = copy-eq own_vk.circuit_digest num_hash_out_elts h.digest_len in
      let t : JwtWrapperTargets r = record {
        base_proof = p;
        outer_pis = pis;
        verifier_data_target = own_vk;
        wrapper_digest_pis = own_vk.circuit_digest;
      } in
      let joined =
        range-for_each (λ i. connect (at pis i) (at pis i)) base_pi_count
          (λ i _. (==_iff (at pis i) (at pis i)).1 refl) in
      let own =
        ap₂ ◌&&◌ ((==_iff (length own_vk.circuit_digest) num_hash_out_elts).1 h.digest_len) (
          ap₂ ◌&&◌ ((==_iff (length own_vk.constants_sigmas_cap) r.cap_len).1 h.cap_len)
            (All-are_elements b (vk_elements own_vk) h.key_elements)) in
      let digest_elements =
        (All-append (λ v. v < b.order) own_vk.circuit_digest own_vk.constants_sigmas_cap
          h.key_elements).0 in
      (
        t,
        rw (enough, same, same_digest) refl,
        ap₂ ◌&&◌ (sized base_pi_count pis h.count h.elements) (
            ap₂ ◌&&◌ (sized num_hash_out_elts own_vk.circuit_digest h.digest_len digest_elements) (
              ap₂ ◌&&◌ own (
                ap₂ ◌&&◌ (sized base_pi_count pis h.count h.elements)
                  (ap₂ ◌&&◌ h.verified (ap₂ ◌&&◌ joined refl))))),
        refl,
      )
