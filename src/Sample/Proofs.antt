-- ===== src/Sample/Proofs.antt =====
-- Toy proof systems, in which a proof is the list of its public inputs.
use dac_from_legacy_credenti.Prelude.{
  ℕ, ◌-◌, ◌≡◌, refl, sym, ap, ap₂, ◌∙◌, ◌↔◌, Bool, true, ◌&&◌, List, [], ◌∷◌, ◌++◌, length, list_eq,
  list_eq_sound, list_eq_refl, &&-split, take, drop, length-append, if◌then◌else◌, arith,
}
use dac_from_legacy_credenti.Plonky2.Recursion.{VerifierData, vk_elements, Recursion}
use dac_from_legacy_credenti.Sample.Hash.{drop-append}

abbrev pub toy_cap_len : ℕ
toy_cap_len = 2

abbrev pub key_of : List ℕ → List ℕ → VerifierData
key_of digest cap = record { circuit_digest = digest; constants_sigmas_cap = cap }

-- The last six elements.
unfoldable pub toy_vk_of : List ℕ → VerifierData
toy_vk_of pis =
    let own = drop (length pis - 6) pis in
    record { circuit_digest = take 4 own; constants_sigmas_cap = drop 4 own }

four_two :
    (d c : List ℕ) → length d ≡ 4 → length c ≡ 2 → (take 4 (d ++ c) ≡ d) × (drop 4 (d ++ c) ≡ c)
four_two [] c e f = absurd (omega arith)
four_two (x ∷ []) c e f = absurd (omega arith)
four_two (x ∷ y ∷ []) c e f = absurd (omega arith)
four_two (x ∷ y ∷ z ∷ []) c e f = absurd (omega arith)
four_two (x ∷ y ∷ z ∷ w ∷ []) c e f = (refl, refl)
four_two (x ∷ y ∷ z ∷ w ∷ u ∷ d) c e f = absurd (omega arith)

pub toy_vk_of-append :
    (pis : List ℕ) (v : VerifierData)
    → length v.circuit_digest ≡ 4
    → length v.constants_sigmas_cap ≡ 2
    → toy_vk_of (pis ++ vk_elements v) ≡ v
unfolding toy_vk_of
toy_vk_of-append pis v d c =
    let own = vk_elements v in
    let n = length-append pis own in
    let m = length-append v.circuit_digest v.constants_sigmas_cap in
    let count : length (pis ++ own) - 6 ≡ length pis = omega arith in
    let tail = ap (λ k. drop k (pis ++ own)) count ∙ drop-append pis own in
    let parts = four_two v.circuit_digest v.constants_sigmas_cap d c in
    ap₂ key_of (ap (take 4) tail ∙ parts.0) (ap (drop 4) tail ∙ parts.1)

abbrev pub same_vk : VerifierData → VerifierData → Bool
same_vk v w =
    list_eq v.circuit_digest w.circuit_digest
    && list_eq v.constants_sigmas_cap w.constants_sigmas_cap

pub same_vk_iff : (v w : VerifierData) → (same_vk v w ≡ true) ↔ (v ≡ w)
same_vk_iff v w = (sound, λ e. ap (same_vk v) (sym e) ∙ complete)
  where
    sound : same_vk v w ≡ true → v ≡ w
    sound e =
        let parts =
          &&-split (list_eq v.circuit_digest w.circuit_digest)
            (list_eq v.constants_sigmas_cap w.constants_sigmas_cap) e in
        ap₂ key_of (list_eq_sound v.circuit_digest w.circuit_digest parts.0)
          (list_eq_sound v.constants_sigmas_cap w.constants_sigmas_cap parts.1)

    complete : same_vk v v ≡ true
    complete = ground (arith, list_eq_refl v.circuit_digest, list_eq_refl v.constants_sigmas_cap)

module _ (accepts : VerifierData → List ℕ → Bool) where
  abbrev pub toy_verify_cyclic : Bool → VerifierData → List ℕ → List ℕ → VerifierData → Bool
  toy_verify_cyclic condition own cyclic other other_vk =
      same_vk (toy_vk_of cyclic) own
      && (if condition then accepts own cyclic else accepts other_vk other)

  pub toy_verify_cyclic_iff :
      (condition : Bool) (own : VerifierData) (cyclic other : List ℕ) (other_vk : VerifierData)
      → (toy_verify_cyclic condition own cyclic other other_vk ≡ true) ↔ (
          (toy_vk_of cyclic ≡ own)
          × ((if condition then accepts own cyclic else accepts other_vk other) ≡ true))
  toy_verify_cyclic_iff condition own cyclic other other_vk =
      let chosen = if condition then accepts own cyclic else accepts other_vk other in
      (
        λ e.
            let parts = &&-split (same_vk (toy_vk_of cyclic) own) chosen e in
            ((same_vk_iff (toy_vk_of cyclic) own).0 parts.0, parts.1),
        λ (k, c). ap₂ ◌&&◌ ((same_vk_iff (toy_vk_of cyclic) own).1 k) c,
      )

  -- The proof system that accepts what `accepts` says.
  abbrev pub toy_proofs : Recursion
  toy_proofs = record {
    Proof = List ℕ;
    public_inputs = λ p. p;
    verify = accepts;
    cap_len = toy_cap_len;
    vk_of = toy_vk_of;
    vk_of-append = toy_vk_of-append;
    verify_cyclic = toy_verify_cyclic;
    verify_cyclic_iff = toy_verify_cyclic_iff;
  }
