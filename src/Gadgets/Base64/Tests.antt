-- ===== src/Gadgets/Base64/Tests.antt =====
-- The decoding of `QUJDRA`, which is `ABCD`.
use dac_from_legacy_credenti.Prelude.{◌≡◌, refl, true, [], ◌∷◌}
use dac_from_legacy_credenti.Plonky2.Circuit.{
  holds, for_each, virtual_target, virtual_targets, are_elements, range_checked,
}
use dac_from_legacy_credenti.Gadgets.Base64.{
  Base64DecodeTargets, char_rule, split_v1, split_v2, group_rule, remainder2_rule, remainder3_rule,
  remainder_rule, make_base64url_decode_circuit,
}
use dac_from_legacy_credenti.Gadgets.Base64.Decode.{
  IsDecoding, make_base64url_decode_circuit-IsDecoding,
}
use dac_from_legacy_credenti.Prelude.Outcome.{ok}
use dac_from_legacy_credenti.Gadgets.Base64.{base64url_char_to_value}
use dac_from_legacy_credenti.Gadgets.Base64.Fill.{
  sixbits_of, splits_of, fill_base64url_decode_witness,
}
use dac_from_legacy_credenti.Sample.Prime.{sample}

abbrev abcd : Base64DecodeTargets
abcd = record {
  input_ascii = 81 ∷ 85 ∷ 74 ∷ 68 ∷ 82 ∷ 65 ∷ [];
  decoded_bytes = 65 ∷ 66 ∷ 67 ∷ 68 ∷ [];
  sixbit_values = 16 ∷ 20 ∷ 9 ∷ 3 ∷ 17 ∷ 0 ∷ [];
  group_splits = record { v1_hi2 = 1; v1_lo4 = 4; v2_hi4 = 2; v2_lo2 = 1 } ∷ [];
  remainder_splits = record { v1_hi2 = 0; v1_lo4 = 0; v2_hi4 = 0; v2_lo2 = 0 };
}

abcd-holds : holds (make_base64url_decode_circuit sample 6 abcd) ≡ true
unfolding make_base64url_decode_circuit char_rule split_v1 split_v2 group_rule remainder2_rule
    remainder3_rule remainder_rule for_each virtual_target virtual_targets are_elements
    range_checked
abcd-holds = refl

make_base64url_decode_circuit-IsDecoding_example : IsDecoding 6 abcd
make_base64url_decode_circuit-IsDecoding_example =
    make_base64url_decode_circuit-IsDecoding sample 6 abcd abcd-holds

-- `QUJD` is `ABC`.
filled-abc :
    fill_base64url_decode_witness 4 3 (81 ∷ 85 ∷ 74 ∷ 68 ∷ []) (65 ∷ 66 ∷ 67 ∷ [])
    ≡ ok (record {
      input_ascii = 81 ∷ 85 ∷ 74 ∷ 68 ∷ [];
      decoded_bytes = 65 ∷ 66 ∷ 67 ∷ [];
      sixbit_values = 16 ∷ 20 ∷ 9 ∷ 3 ∷ [];
      group_splits = record { v1_hi2 = 1; v1_lo4 = 4; v2_hi4 = 2; v2_lo2 = 1 } ∷ [];
      remainder_splits = record { v1_hi2 = 0; v1_lo4 = 0; v2_hi4 = 0; v2_lo2 = 0 };
    })
unfolding fill_base64url_decode_witness sixbits_of splits_of base64url_char_to_value
filled-abc = refl
