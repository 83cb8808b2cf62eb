-- ===== src/Gadgets/Base64/Decode.antt =====
-- What the decoding circuit enforces.
use dac_from_legacy_credenti.Prelude.{
  ℕ, ◌+◌, ◌*◌, ◌/◌, ◌%◌, ◌^◌, ◌<◌, ◌≡◌, sym, ap, ap₂, ◌∙◌, true, at, get_or, range, arith,
}
use dac_from_legacy_credenti.Prelude.Outcome.{ok}
use dac_from_legacy_credenti.Plonky2.Field.{Builder}
use dac_from_legacy_credenti.Plonky2.Circuit.{
  holds, for_each, for_each-range, virtual_target, range_checked,
}
use dac_from_legacy_credenti.Gadgets.{mul_add}
use dac_from_legacy_credenti.Gadgets.Bytes.{mul_add-exact}
use dac_from_legacy_credenti.Gadgets.Base64.{
  base64url_alphabet, base64url_char_to_value, GroupSplitTargets, no_splits, Base64DecodeTargets,
  char_rule, split_v1, split_v2, group_rule, remainder2_rule, remainder3_rule, remainder_rule,
  make_base64url_decode_circuit,
}
use dac_from_legacy_credenti.Gadgets.Base64.Alphabet.{base64url_char_to_value-at}

-- The bytes are those of base64url: each character has its six-bit value, each group of four
-- values is three bytes, and the bits beyond the last byte are zeros.
pub record IsDecoding (encoded_len : ℕ) (t : Base64DecodeTargets) : Type 0 where
  pub values :
      (i : ℕ)
      → i < encoded_len
      → (at t.sixbit_values i < 64)
        × (base64url_char_to_value (at t.input_ascii i) ≡ ok (at t.sixbit_values i))
  pub groups :
      (g : ℕ)
      → g < encoded_len / 4
      → (at t.decoded_bytes (g * 3)
          ≡ at t.sixbit_values (g * 4) * 4 + at t.sixbit_values (g * 4 + 1) / 16)
        × (at t.decoded_bytes (g * 3 + 1)
            ≡ at t.sixbit_values (g * 4 + 1) % 16 * 16 + at t.sixbit_values (g * 4 + 2) / 4)
        × (at t.decoded_bytes (g * 3 + 2)
            ≡ at t.sixbit_values (g * 4 + 2) % 4 * 64 + at t.sixbit_values (g * 4 + 3))
  pub last_one :
      encoded_len % 4 ≡ 2
      → (at t.decoded_bytes (encoded_len / 4 * 3)
          ≡ at t.sixbit_values (encoded_len / 4 * 4) * 4
            + at t.sixbit_values (encoded_len / 4 * 4 + 1) / 16)
        × (at t.sixbit_values (encoded_len / 4 * 4 + 1) % 16 ≡ 0)
  pub last_two :
      encoded_len % 4 ≡ 3
      → (at t.decoded_bytes (encoded_len / 4 * 3)
          ≡ at t.sixbit_values (encoded_len / 4 * 4) * 4
            + at t.sixbit_values (encoded_len / 4 * 4 + 1) / 16)
        × (at t.decoded_bytes (encoded_len / 4 * 3 + 1)
            ≡ at t.sixbit_values (encoded_len / 4 * 4 + 1) % 16 * 16
              + at t.sixbit_values (encoded_len / 4 * 4 + 2) / 4)
        × (at t.sixbit_values (encoded_len / 4 * 4 + 2) % 4 ≡ 0)

module _ (b : Builder) where
  char_rule-values :
      (t : Base64DecodeTargets) (i : ℕ)
      → holds (char_rule b t i) ≡ true
      → (at t.sixbit_values i < 64)
        × (base64url_char_to_value (at t.input_ascii i) ≡ ok (at t.sixbit_values i))
  unfolding char_rule range_checked
  char_rule-values t i e =
      let v = at t.sixbit_values i in
      let checked : b.range_check v 6 ≡ true = ground arith in
      let same : at t.input_ascii i ≡ b.random_access v base64url_alphabet = ground arith in
      let small : v < 64 = (b.range_check_iff v 6).0 checked in
      (
        small,
        ap base64url_char_to_value (same ∙ b.random_access_lem v base64url_alphabet small)
            ∙ base64url_char_to_value-at v small,
      )

  -- A product and a sum of small numbers do not wrap around.
  mul_add-small : (x y z : ℕ) → x * y + z < 2 ^ 32 → mul_add b x y z ≡ x * y + z
  mul_add-small x y z lt = mul_add-exact b x y z (omega (arith, b.u32_lt_order))

  split_v1-divides :
      (v : ℕ) (s : GroupSplitTargets)
      → holds (split_v1 b v s) ≡ true
      → (s.v1_hi2 ≡ v / 16) × (s.v1_lo4 ≡ v % 16) × (s.v1_hi2 < 4) × (s.v1_lo4 < 16)
  unfolding split_v1 range_checked virtual_target
  split_v1-divides v s e =
      let hi : b.range_check s.v1_hi2 2 ≡ true = ground arith in
      let lo : b.range_check s.v1_lo4 4 ≡ true = ground arith in
      let same : v ≡ mul_add b s.v1_hi2 16 s.v1_lo4 = ground arith in
      let hi_small : s.v1_hi2 < 4 = (b.range_check_iff s.v1_hi2 2).0 hi in
      let lo_small : s.v1_lo4 < 16 = (b.range_check_iff s.v1_lo4 4).0 lo in
      let whole = same ∙ mul_add-small s.v1_hi2 16 s.v1_lo4 (omega (arith, hi_small, lo_small)) in
      (omega (arith, whole, lo_small), omega (arith, whole, lo_small), hi_small, lo_small)

  split_v2-divides :
      (v : ℕ) (s : GroupSplitTargets)
      → holds (split_v2 b v s) ≡ true
      → (s.v2_hi4 ≡ v / 4) × (s.v2_lo2 ≡ v % 4) × (s.v2_hi4 < 16) × (s.v2_lo2 < 4)
  unfolding split_v2 range_checked virtual_target
  split_v2-divides v s e =
      let hi : b.range_check s.v2_hi4 4 ≡ true = ground arith in
      let lo : b.range_check s.v2_lo2 2 ≡ true = ground arith in
      let same : v ≡ mul_add b s.v2_hi4 4 s.v2_lo2 = ground arith in
      let hi_small : s.v2_hi4 < 16 = (b.range_check_iff s.v2_hi4 4).0 hi in
      let lo_small : s.v2_lo2 < 4 = (b.range_check_iff s.v2_lo2 2).0 lo in
      let whole = same ∙ mul_add-small s.v2_hi4 4 s.v2_lo2 (omega (arith, hi_small, lo_small)) in
      (omega (arith, whole, lo_small), omega (arith, whole, lo_small), hi_small, lo_small)

  -- Two six-bit values pack into a byte, and so do three pairs of a group.
  first_byte :
      (v0 v1 d : ℕ) (s : GroupSplitTargets)
      → v0 < 64
      → s.v1_hi2 ≡ v1 / 16
      → s.v1_hi2 < 4
      → d ≡ mul_add b v0 4 s.v1_hi2
      → d ≡ v0 * 4 + v1 / 16
  first_byte v0 v1 d s lt hi small e =
      e ∙ mul_add-small v0 4 s.v1_hi2 (omega (arith, lt, small)) ∙ ap (λ x. v0 * 4 + x) hi

  second_byte :
      (v1 v2 d : ℕ) (s : GroupSplitTargets)
      → (s.v1_lo4 ≡ v1 % 16) × (s.v1_lo4 < 16)
      → (s.v2_hi4 ≡ v2 / 4) × (s.v2_hi4 < 16)
      → d ≡ mul_add b s.v1_lo4 16 s.v2_hi4
      → d ≡ v1 % 16 * 16 + v2 / 4
  second_byte v1 v2 d s (lo, lo_small) (hi, hi_small) e =
      e
      ∙ mul_add-small s.v1_lo4 16 s.v2_hi4 (omega (arith, lo_small, hi_small))
      ∙ ap₂ (λ x y. x * 16 + y) lo hi

  group_rule-bytes :
      (t : Base64DecodeTargets) (g : ℕ)
      → at t.sixbit_values (g * 4) < 64
      → at t.sixbit_values (g * 4 + 3) < 64
      → holds (group_rule b t g) ≡ true
      → (at t.decoded_bytes (g * 3)
          ≡ at t.sixbit_values (g * 4) * 4 + at t.sixbit_values (g * 4 + 1) / 16)
        × (at t.decoded_bytes (g * 3 + 1)
            ≡ at t.sixbit_values (g * 4 + 1) % 16 * 16 + at t.sixbit_values (g * 4 + 2) / 4)
        × (at t.decoded_bytes (g * 3 + 2)
            ≡ at t.sixbit_values (g * 4 + 2) % 4 * 64 + at t.sixbit_values (g * 4 + 3))
  unfolding group_rule
  group_rule-bytes t g l0 l3 e =
      let s = get_or t.group_splits g no_splits in
      let v0 = at t.sixbit_values (g * 4) in
      let v1 = at t.sixbit_values (g * 4 + 1) in
      let v2 = at t.sixbit_values (g * 4 + 2) in
      let v3 = at t.sixbit_values (g * 4 + 3) in
      let one : holds (split_v1 b v1 s) ≡ true = ground arith in
      let two : holds (split_v2 b v2 s) ≡ true = ground arith in
      let d0 : at t.decoded_bytes (g * 3) ≡ mul_add b v0 4 s.v1_hi2 = ground arith in
      let d1 : at t.decoded_bytes (g * 3 + 1) ≡ mul_add b s.v1_lo4 16 s.v2_hi4 = ground arith in
      let d2 : at t.decoded_bytes (g * 3 + 2) ≡ mul_add b s.v2_lo2 64 v3 = ground arith in
      let (hi1, lo1, hi1_small, lo1_small) = split_v1-divides v1 s one in
      let (hi2, lo2, hi2_small, lo2_small) = split_v2-divides v2 s two in
      (
        first_byte v0 v1 (at t.decoded_bytes (g * 3)) s l0 hi1 hi1_small d0,
        second_byte v1 v2 (at t.decoded_bytes (g * 3 + 1)) s (lo1, lo1_small) (hi2, hi2_small) d1,
        d2
            ∙ mul_add-small s.v2_lo2 64 v3 (omega (arith, lo2_small, l3))
            ∙ ap (λ x. x * 64 + v3) lo2,
      )

  remainder2_rule-bytes :
      (t : Base64DecodeTargets) (g : ℕ)
      → at t.sixbit_values (g * 4) < 64
      → holds (remainder2_rule b t g) ≡ true
      → (at t.decoded_bytes (g * 3)
          ≡ at t.sixbit_values (g * 4) * 4 + at t.sixbit_values (g * 4 + 1) / 16)
        × (at t.sixbit_values (g * 4 + 1) % 16 ≡ 0)
  unfolding remainder2_rule
  remainder2_rule-bytes t g l0 e =
      let s = t.remainder_splits in
      let v0 = at t.sixbit_values (g * 4) in
      let v1 = at t.sixbit_values (g * 4 + 1) in
      let one : holds (split_v1 b v1 s) ≡ true = ground arith in
      let d0 : at t.decoded_bytes (g * 3) ≡ mul_add b v0 4 s.v1_hi2 = ground arith in
      let none : s.v1_lo4 ≡ 0 = ground arith in
      let (hi1, lo1, hi1_small, _) = split_v1-divides v1 s one in
      (first_byte v0 v1 (at t.decoded_bytes (g * 3)) s l0 hi1 hi1_small d0, sym lo1 ∙ none)

  remainder3_rule-bytes :
      (t : Base64DecodeTargets) (g : ℕ)
      → at t.sixbit_values (g * 4) < 64
      → holds (remainder3_rule b t g) ≡ true
      → (at t.decoded_bytes (g * 3)
          ≡ at t.sixbit_values (g * 4) * 4 + at t.sixbit_values (g * 4 + 1) / 16)
        × (at t.decoded_bytes (g * 3 + 1)
            ≡ at t.sixbit_values (g * 4 + 1) % 16 * 16 + at t.sixbit_values (g * 4 + 2) / 4)
        × (at t.sixbit_values (g * 4 + 2) % 4 ≡ 0)
  unfolding remainder3_rule
  remainder3_rule-bytes t g l0 e =
      let s = t.remainder_splits in
      let v0 = at t.sixbit_values (g * 4) in
      let v1 = at t.sixbit_values (g * 4 + 1) in
      let v2 = at t.sixbit_values (g * 4 + 2) in
      let one : holds (split_v1 b v1 s) ≡ true = ground arith in
      let two : holds (split_v2 b v2 s) ≡ true = ground arith in
      let d0 : at t.decoded_bytes (g * 3) ≡ mul_add b v0 4 s.v1_hi2 = ground arith in
      let d1 : at t.decoded_bytes (g * 3 + 1) ≡ mul_add b s.v1_lo4 16 s.v2_hi4 = ground arith in
      let none : s.v2_lo2 ≡ 0 = ground arith in
      let (hi1, lo1, hi1_small, lo1_small) = split_v1-divides v1 s one in
      let (hi2, lo2, hi2_small, _) = split_v2-divides v2 s two in
      (
        first_byte v0 v1 (at t.decoded_bytes (g * 3)) s l0 hi1 hi1_small d0,
        second_byte v1 v2 (at t.decoded_bytes (g * 3 + 1)) s (lo1, lo1_small) (hi2, hi2_small) d1,
        sym lo2 ∙ none,
      )

  -- An assignment that satisfies the decoding circuit decodes: each character has its six-bit
  -- value, the bytes are those of the values, and the bits left over at the end are zeros.
  pub make_base64url_decode_circuit-IsDecoding :
      (encoded_len : ℕ) (t : Base64DecodeTargets)
      → holds (make_base64url_decode_circuit b encoded_len t) ≡ true
      → IsDecoding encoded_len t
  unfolding make_base64url_decode_circuit remainder_rule
  make_base64url_decode_circuit-IsDecoding n t e =
      let q = n / 4 in
      let chars : holds (for_each (char_rule b t) (range n)) ≡ true = ground arith in
      let groups : holds (for_each (group_rule b t) (range q)) ≡ true = ground arith in
      let rest : holds (remainder_rule b t (n % 4) q) ≡ true = ground arith in
      let value : (i : ℕ) → i < n → at t.sixbit_values i < 64 =
        λ i lt. (char_rule-values t i (for_each-range (char_rule b t) n i chars lt)).0 in
      record {
        values = λ i lt. char_rule-values t i (for_each-range (char_rule b t) n i chars lt);
        groups = λ g lt.
            group_rule-bytes t g (value (g * 4) (omega (arith, lt)))
              (value (g * 4 + 3) (omega (arith, lt)))
              (for_each-range (group_rule b t) q g groups lt);
        last_one = λ two.
            remainder2_rule-bytes t q (value (q * 4) (omega (arith, two)))
              (ap (λ k. holds (remainder_rule b t k q)) (sym two) ∙ rest);
        last_two = λ three.
            remainder3_rule-bytes t q (value (q * 4) (omega (arith, three)))
              (ap (λ k. holds (remainder_rule b t k q)) (sym three) ∙ rest);
      }
