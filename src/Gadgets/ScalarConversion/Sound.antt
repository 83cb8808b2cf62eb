-- ===== src/Gadgets/ScalarConversion/Sound.antt =====
-- What src/circuits/gadgets/scalar_conversion.rs enforces of the limbs of the scalar.
use native.Mathlib.Nat.{mod-eq_of_lt, pow-suc}
use dac_from_legacy_credenti.Prelude.{
  ℕ, zero, suc, ◌+◌, ◌-◌, ◌*◌, ◌^◌, ◌≤◌, ◌<◌, ◌≡◌, refl, sym, ap, ap₂, ◌∙◌, Bool, true, false, List,
  [], ◌∷◌, map, All, All-get_or, at, length, length-map, &&-split, range, ◌==◌, ==_iff, arith,
}
use dac_from_legacy_credenti.Plonky2.Field.{Builder}
use dac_from_legacy_credenti.Plonky2.Circuit.{
  Circuit, Done, holds, connect, connect_all, connect_all-eq, for_each, for_each-range,
  virtual_targets,
}
use dac_from_legacy_credenti.Gadgets.Bits.{
  weigh, weigh-eq, weigh-zero, weigh-lt, weigh-split, bits_value, bits_value-weigh,
}
use dac_from_legacy_credenti.Gadgets.ScalarConversion.{
  DigestToScalarTargets, bit_target, limb_from_bits, make_digest_to_scalar_circuit,
  wire_digest_to_ecdsa,
}

-- The number of eight limbs.
abbrev pub limbs_value : List ℕ → ℕ
limbs_value limbs =
    at limbs 0
    + at limbs 1 * 2 ^ 32
    + at limbs 2 * 2 ^ 64
    + at limbs 3 * 2 ^ 96
    + at limbs 4 * 2 ^ 128
    + at limbs 5 * 2 ^ 160
    + at limbs 6 * 2 ^ 192
    + at limbs 7 * 2 ^ 224

pub bits_small : (bits : List Bool) → All (λ x. x ≤ 1) (map bit_target bits)
bits_small [] = tt
bits_small (true ∷ bits) = (omega arith, bits_small bits)
bits_small (false ∷ bits) = (omega arith, bits_small bits)

module _ (b : Builder) where
  open b use {order}

  -- Up to 32 bits the sum does not wrap around.
  limb_from_bits-weigh :
      (f : ℕ → ℕ) (n : ℕ) → ((i : ℕ) → f i ≤ 1) → 2 ^ n ≤ 2 ^ 32 → limb_from_bits b f n ≡ weigh f n
  unfolding limb_from_bits weigh
  limb_from_bits-weigh f zero h le = refl
  limb_from_bits-weigh f (suc n) h le =
      let big = b.u32_lt_order in
      let total : weigh f n + f n * 2 ^ n < 2 ^ suc n = weigh-lt f (suc n) h in
      let ih = limb_from_bits-weigh f n h (omega (arith, le, pow-suc 2 n)) in
      let product : b.mul (f n) (2 ^ n) ≡ f n * 2 ^ n =
        b.mul_lem (f n) (2 ^ n) ∙ mod-eq_of_lt (omega (arith, total, le)) in
      ap₂ b.add ih product
      ∙ b.add_lem (weigh f n) (f n * 2 ^ n)
      ∙ mod-eq_of_lt (omega (arith, total, le))

  -- The limbs of a satisfied conversion are the number of 256 bits, the most significant first.
  make_digest_to_scalar_circuit-value :
      (t : DigestToScalarTargets)
      → holds (make_digest_to_scalar_circuit b t) ≡ true
      → (length t.digest_bits_targets ≡ 256)
        × (limbs_value t.expected_scalar ≡ bits_value 0 (map bit_target t.digest_bits_targets))
  unfolding make_digest_to_scalar_circuit virtual_targets
  make_digest_to_scalar_circuit-value t e =
      let bits = map bit_target t.digest_bits_targets in
      let body : ℕ → Circuit Done = λ l.
        connect (limb_from_bits b (λ j. at bits (255 - (l * 32 + j))) 32)
          (at t.expected_scalar l) in
      let sized : (length t.digest_bits_targets == 256) ≡ true = ground arith in
      let joined : holds (for_each body (range 8)) ≡ true = ground arith in
      let size = (==_iff (length t.digest_bits_targets) 256).0 sized in
      let f : ℕ → ℕ = λ i. at bits (256 - (i + 1)) in
      let small : (i : ℕ) → f i ≤ 1 = λ i.
        All-get_or (λ x. x ≤ 1) bits (256 - (i + 1)) 0 (bits_small t.digest_bits_targets)
          (omega arith) in
      let limb : (l : ℕ) → l < 8 → at t.expected_scalar l ≡ weigh (λ j. f (l * 32 + j)) 32 = λ l lt.
        sym (
          (==_iff (limb_from_bits b (λ j. at bits (255 - (l * 32 + j))) 32)
              (at t.expected_scalar l)).0
            (for_each-range body 8 l joined lt))
        ∙ limb_from_bits-weigh (λ j. at bits (255 - (l * 32 + j))) 32
            (λ j.
              All-get_or (λ x. x ≤ 1) bits (255 - (l * 32 + j)) 0 (bits_small t.digest_bits_targets)
                (omega arith))
            (omega arith)
        ∙ weigh-eq (λ j. at bits (255 - (l * 32 + j))) (λ j. f (l * 32 + j)) 32
            (λ j _. ap (at bits) (omega arith)) in
      (
        size,
        whole f t.expected_scalar limb
            ∙ sym (bits_value-weigh bits 256 (length-map bit_target t.digest_bits_targets ∙ size)),
      )
    where
      whole :
          (f : ℕ → ℕ) (limbs : List ℕ)
          → ((l : ℕ) → l < 8 → at limbs l ≡ weigh (λ j. f (l * 32 + j)) 32)
          → limbs_value limbs ≡ weigh f 256
      whole f limbs limb = omega (
        arith,
        limb 0 (omega arith),
        limb 1 (omega arith),
        limb 2 (omega arith),
        limb 3 (omega arith),
        limb 4 (omega arith),
        limb 5 (omega arith),
        limb 6 (omega arith),
        limb 7 (omega arith),
        weigh-split f 0 32,
        weigh-split f 32 32,
        weigh-split f 64 32,
        weigh-split f 96 32,
        weigh-split f 128 32,
        weigh-split f 160 32,
        weigh-split f 192 32,
        weigh-split f 224 32,
        weigh-zero f,
      )

  -- An assignment that satisfies the conversion and the wiring signs the number that the digest's
  -- 256 bits stand for, the most significant bit first.
  pub wire_digest_to_ecdsa-value :
      (digest_bits : List Bool) (t : DigestToScalarTargets) (msg_limbs : List ℕ)
      → holds (make_digest_to_scalar_circuit b t) ≡ true
      → holds (wire_digest_to_ecdsa digest_bits t msg_limbs) ≡ true
      → (length digest_bits ≡ 256)
        × (limbs_value msg_limbs ≡ bits_value 0 (map bit_target digest_bits))
  unfolding wire_digest_to_ecdsa
  wire_digest_to_ecdsa-value digest_bits t msg_limbs made wired =
      let (joined, sent) =
        &&-split
          (holds (connect_all (map bit_target digest_bits) (map bit_target t.digest_bits_targets)))
          _ wired in
      let same =
        connect_all-eq (map bit_target digest_bits) (map bit_target t.digest_bits_targets) joined in
      let msg = connect_all-eq t.expected_scalar msg_limbs sent in
      let (size, value) = make_digest_to_scalar_circuit-value t made in
      (
        sym (length-map bit_target digest_bits)
            ∙ ap length same
            ∙ length-map bit_target t.digest_bits_targets
            ∙ size,
        ap limbs_value (sym msg) ∙ value ∙ sym (ap (bits_value 0) same),
      )
