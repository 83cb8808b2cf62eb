-- ===== src/JwtBase/Header.antt =====
-- What the header rule of src/circuits/jwt_base.rs says of the message that is hashed.
use native.Mathlib.Nat.{mod-eq_of_lt, pow-le-pow_right}
use dac_from_legacy_credenti.Prelude.{
  ℕ, zero, suc, ◌+◌, ◌-◌, ◌*◌, ◌^◌, ◌≤◌, ◌<◌, ◌≡◌, refl, sym, ap₂, ◌∙◌, Bool, true, List, map,
  All-get_or, at, length, range, ◌==◌, ==_iff, arith,
}
use dac_from_legacy_credenti.Plonky2.Field.{Builder}
use dac_from_legacy_credenti.Plonky2.Circuit.{
  Circuit, Done, holds, connect, for_each, for_each-range,
}
use dac_from_legacy_credenti.Gadgets.Bits.{bits_value}
use dac_from_legacy_credenti.Gadgets.ScalarConversion.{bit_target}
use dac_from_legacy_credenti.Gadgets.ScalarConversion.Sound.{bits_small}
use dac_from_legacy_credenti.JwtBase.{
  jwt_header_json, dot, byte_from_bits, byte_from_message_bits, constrain_jwt_header,
}

-- Byte `i` of the message that the bits are, eight to a byte, the most significant first.
abbrev pub message_byte : List Bool → ℕ → ℕ
message_byte message_bits i =
    bits_value 0 (map (λ k. at (map bit_target message_bits) (i * 8 + k)) (range 8))

-- The plain sum of the loop.
unfoldable weighted : (ℕ → ℕ) → ℕ → ℕ
weighted f zero = 0
weighted f (suc k) = weighted f k + f k * 2 ^ (7 - k)

weight_le : (k : ℕ) → 2 ^ (7 - k) ≤ 128
weight_le k = pow-le-pow_right {n = 2} (omega arith) {i = 7 - k} {j = 7} (omega arith)

bit_times : (x w : ℕ) → x ≤ 1 → w ≤ 128 → x * w ≤ 128
bit_times x w le small = grind arith

weighted_le : (f : ℕ → ℕ) (k : ℕ) → ((i : ℕ) → f i ≤ 1) → weighted f k ≤ k * 128
unfolding weighted
weighted_le f zero h = omega arith
weighted_le f (suc k) h =
    omega (arith, weighted_le f k h, bit_times (f k) (2 ^ (7 - k)) (h k) (weight_le k))

weighted-bits_value : (f : ℕ → ℕ) → weighted f 8 ≡ bits_value 0 (map f (range 8))
unfolding weighted bits_value
weighted-bits_value f = omega arith

pub message_byte-lt : (bits : List Bool) (i : ℕ) → message_byte bits i < 2 ^ 32
message_byte-lt bits i =
    let f : ℕ → ℕ = λ k. at (map bit_target bits) (i * 8 + k) in
    omega (
      arith,
      weighted-bits_value f,
      weighted_le f 8 (λ k.
          All-get_or (λ x. x ≤ 1) (map bit_target bits) (i * 8 + k) 0 (bits_small bits)
            (omega arith)),
    )

module _ (b : Builder) where
  open b use {order}

  byte_from_bits-weighted :
      (f : ℕ → ℕ) (k : ℕ) → ((i : ℕ) → f i ≤ 1) → k ≤ 8 → byte_from_bits b f k ≡ weighted f k
  unfolding byte_from_bits weighted
  byte_from_bits-weighted f zero h le = refl
  byte_from_bits-weighted f (suc k) h le =
      let big = b.u32_lt_order in
      let small = bit_times (f k) (2 ^ (7 - k)) (h k) (weight_le k) in
      let sum = weighted_le f k h in
      ap₂ b.add (byte_from_bits-weighted f k h (omega (arith, le)))
        (b.mul_lem (f k) (2 ^ (7 - k)) ∙ mod-eq_of_lt (omega (arith, small, big)))
      ∙ b.add_lem (weighted f k) (f k * 2 ^ (7 - k))
      ∙ mod-eq_of_lt (omega (arith, small, sum, big, le))

  pub byte_from_message_bits-message_byte :
      (bits : List Bool) (i : ℕ) → byte_from_message_bits b bits i ≡ message_byte bits i
  unfolding byte_from_message_bits
  byte_from_message_bits-message_byte bits i =
      let f : ℕ → ℕ = λ k. at (map bit_target bits) (i * 8 + k) in
      byte_from_bits-weighted f 8
        (λ k.
          All-get_or (λ x. x ≤ 1) (map bit_target bits) (i * 8 + k) 0 (bits_small bits)
            (omega arith))
        (omega arith)
      ∙ weighted-bits_value f

  -- A message whose bits satisfy the rule starts with the encoded header of the system and a dot.
  pub constrain_jwt_header-message_byte :
      (base64url_encode : List ℕ → List ℕ) (bits : List Bool) (header_b64_len : ℕ)
      → holds (constrain_jwt_header b base64url_encode bits header_b64_len) ≡ true
      → (length (base64url_encode jwt_header_json) ≡ header_b64_len)
        × ((i : ℕ)
            → i < header_b64_len
            → message_byte bits i ≡ at (base64url_encode jwt_header_json) i)
        × (message_byte bits header_b64_len ≡ dot)
  unfolding constrain_jwt_header
  constrain_jwt_header-message_byte base64url_encode bits header_b64_len e =
      let expected = base64url_encode jwt_header_json in
      let body : ℕ → Circuit Done =
        λ i. connect (byte_from_message_bits b bits i) (at expected i) in
      let sized : (length expected == header_b64_len) ≡ true = ground arith in
      let joined : holds (for_each body (range (length expected))) ≡ true = ground arith in
      let dotted : (byte_from_message_bits b bits header_b64_len == dot) ≡ true = ground arith in
      let size = (==_iff (length expected) header_b64_len).0 sized in
      (
        size,
        λ i lt.
            sym (byte_from_message_bits-message_byte bits i)
            ∙ (==_iff (byte_from_message_bits b bits i) (at expected i)).0
                (for_each-range body (length expected) i joined (omega arith)),
        sym (byte_from_message_bits-message_byte bits header_b64_len)
            ∙ (==_iff (byte_from_message_bits b bits header_b64_len) dot).0 dotted,
      )
