-- ===== src/Gadgets/CnfParse/Tests.antt =====
-- The theorems on the CNF extractor, at a payload that is one block.
use dac_from_legacy_credenti.Prelude.{
  ℕ, ◌+◌, ◌*◌, ◌<◌, ◌≡◌, refl, true, List, [], ◌∷◌, at, arith, list_eq, list_eq_sound, map, range,
  sym, ap, ◌∙◌,
}
use dac_from_legacy_credenti.Prelude.Index.{get_or-map-range}
use dac_from_legacy_credenti.Prelude.Text.Search.{StandsAt}
use dac_from_legacy_credenti.Plonky2.Circuit.{
  holds, value, connect_all, for_each, virtual_target, virtual_targets, are_elements, range_checked,
}
use dac_from_legacy_credenti.Credential.Cnf.{build_cnf_block}
use dac_from_legacy_credenti.Gadgets.{
  sum_from, weighted_from, make_one_hot_indicator, pack_4_bytes_be, unpack_words_to_bytes,
  select_bytes_by_offset,
}
use dac_from_legacy_credenti.Gadgets.ArraySlice.{
  slice_rule, make_array_slice_circuit_packed_u32, word_from,
}
use dac_from_legacy_credenti.Gadgets.Substring.{IsPacked}
use dac_from_legacy_credenti.Gadgets.Base64.{
  Base64DecodeTargets, char_rule, split_v1, split_v2, group_rule, remainder2_rule, remainder3_rule,
  remainder_rule, make_base64url_decode_circuit,
}
use dac_from_legacy_credenti.Gadgets.CnfParse.{
  CnfExtractorTargets, match_bytes, pack_coord_limbs, make_cnf_extractor_circuit,
}
use dac_from_legacy_credenti.Gadgets.CnfParse.Sound.{
  IsCoordinate, make_cnf_extractor_circuit-StandsAt,
}
use dac_from_legacy_credenti.Sample.Prime.{sample}

abbrev payload : List ℕ
payload =
    123 ∷ 34 ∷ 99 ∷ 110 ∷ 102 ∷ 34 ∷ 58 ∷ 123 ∷ 34 ∷ 106 ∷ 119 ∷ 107 ∷ 34 ∷ 58 ∷ 123 ∷ 34 ∷ 107
    ∷ 116 ∷ 121 ∷ 34 ∷ 58 ∷ 34 ∷ 69 ∷ 67 ∷ 34 ∷ 44 ∷ 34 ∷ 99 ∷ 114 ∷ 118 ∷ 34 ∷ 58 ∷ 34 ∷ 80 ∷ 45
    ∷ 50 ∷ 53 ∷ 54 ∷ 34 ∷ 44 ∷ 34 ∷ 120 ∷ 34 ∷ 58 ∷ 34 ∷ 65 ∷ 81 ∷ 73 ∷ 68 ∷ 66 ∷ 65 ∷ 85 ∷ 71 ∷ 66
    ∷ 119 ∷ 103 ∷ 74 ∷ 67 ∷ 103 ∷ 115 ∷ 77 ∷ 68 ∷ 81 ∷ 52 ∷ 80 ∷ 69 ∷ 66 ∷ 69 ∷ 83 ∷ 69 ∷ 120 ∷ 81
    ∷ 86 ∷ 70 ∷ 104 ∷ 99 ∷ 89 ∷ 71 ∷ 82 ∷ 111 ∷ 98 ∷ 72 ∷ 66 ∷ 48 ∷ 101 ∷ 72 ∷ 121 ∷ 65 ∷ 34 ∷ 44
    ∷ 34 ∷ 121 ∷ 34 ∷ 58 ∷ 34 ∷ 121 ∷ 77 ∷ 110 ∷ 75 ∷ 121 ∷ 56 ∷ 122 ∷ 78 ∷ 122 ∷ 115 ∷ 95 ∷ 81 ∷ 48
    ∷ 100 ∷ 76 ∷ 84 ∷ 49 ∷ 78 ∷ 88 ∷ 87 ∷ 49 ∷ 57 ∷ 106 ∷ 90 ∷ 50 ∷ 116 ∷ 118 ∷ 99 ∷ 51 ∷ 100 ∷ 55
    ∷ 102 ∷ 52 ∷ 79 ∷ 72 ∷ 105 ∷ 52 ∷ 45 ∷ 84 ∷ 108 ∷ 53 ∷ 117 ∷ 99 ∷ 34 ∷ 125 ∷ 125 ∷ 125 ∷ 0 ∷ 0
    ∷ 0 ∷ 0 ∷ 0 ∷ 0 ∷ []

abbrev first_coordinate : Base64DecodeTargets
first_coordinate = record {
  input_ascii =
      65 ∷ 81 ∷ 73 ∷ 68 ∷ 66 ∷ 65 ∷ 85 ∷ 71 ∷ 66 ∷ 119 ∷ 103 ∷ 74 ∷ 67 ∷ 103 ∷ 115 ∷ 77 ∷ 68 ∷ 81
      ∷ 52 ∷ 80 ∷ 69 ∷ 66 ∷ 69 ∷ 83 ∷ 69 ∷ 120 ∷ 81 ∷ 86 ∷ 70 ∷ 104 ∷ 99 ∷ 89 ∷ 71 ∷ 82 ∷ 111 ∷ 98
      ∷ 72 ∷ 66 ∷ 48 ∷ 101 ∷ 72 ∷ 121 ∷ 65 ∷ [];
  decoded_bytes =
      1 ∷ 2 ∷ 3 ∷ 4 ∷ 5 ∷ 6 ∷ 7 ∷ 8 ∷ 9 ∷ 10 ∷ 11 ∷ 12 ∷ 13 ∷ 14 ∷ 15 ∷ 16 ∷ 17 ∷ 18 ∷ 19 ∷ 20 ∷ 21
      ∷ 22 ∷ 23 ∷ 24 ∷ 25 ∷ 26 ∷ 27 ∷ 28 ∷ 29 ∷ 30 ∷ 31 ∷ 32 ∷ [];
  sixbit_values =
      0 ∷ 16 ∷ 8 ∷ 3 ∷ 1 ∷ 0 ∷ 20 ∷ 6 ∷ 1 ∷ 48 ∷ 32 ∷ 9 ∷ 2 ∷ 32 ∷ 44 ∷ 12 ∷ 3 ∷ 16 ∷ 56 ∷ 15 ∷ 4
      ∷ 1 ∷ 4 ∷ 18 ∷ 4 ∷ 49 ∷ 16 ∷ 21 ∷ 5 ∷ 33 ∷ 28 ∷ 24 ∷ 6 ∷ 17 ∷ 40 ∷ 27 ∷ 7 ∷ 1 ∷ 52 ∷ 30 ∷ 7
      ∷ 50 ∷ 0 ∷ [];
  group_splits =
      (record { v1_hi2 = 1; v1_lo4 = 0; v2_hi4 = 2; v2_lo2 = 0 })
      ∷ (record { v1_hi2 = 0; v1_lo4 = 0; v2_hi4 = 5; v2_lo2 = 0 })
      ∷ (record { v1_hi2 = 3; v1_lo4 = 0; v2_hi4 = 8; v2_lo2 = 0 })
      ∷ (record { v1_hi2 = 2; v1_lo4 = 0; v2_hi4 = 11; v2_lo2 = 0 })
      ∷ (record { v1_hi2 = 1; v1_lo4 = 0; v2_hi4 = 14; v2_lo2 = 0 })
      ∷ (record { v1_hi2 = 0; v1_lo4 = 1; v2_hi4 = 1; v2_lo2 = 0 })
      ∷ (record { v1_hi2 = 3; v1_lo4 = 1; v2_hi4 = 4; v2_lo2 = 0 })
      ∷ (record { v1_hi2 = 2; v1_lo4 = 1; v2_hi4 = 7; v2_lo2 = 0 })
      ∷ (record { v1_hi2 = 1; v1_lo4 = 1; v2_hi4 = 10; v2_lo2 = 0 })
      ∷ (record { v1_hi2 = 0; v1_lo4 = 1; v2_hi4 = 13; v2_lo2 = 0 })
      ∷ [];
  remainder_splits = record { v1_hi2 = 3; v1_lo4 = 2; v2_hi4 = 0; v2_lo2 = 0 };
}

abbrev second_coordinate : Base64DecodeTargets
second_coordinate = record {
  input_ascii =
      121 ∷ 77 ∷ 110 ∷ 75 ∷ 121 ∷ 56 ∷ 122 ∷ 78 ∷ 122 ∷ 115 ∷ 95 ∷ 81 ∷ 48 ∷ 100 ∷ 76 ∷ 84 ∷ 49 ∷ 78
      ∷ 88 ∷ 87 ∷ 49 ∷ 57 ∷ 106 ∷ 90 ∷ 50 ∷ 116 ∷ 118 ∷ 99 ∷ 51 ∷ 100 ∷ 55 ∷ 102 ∷ 52 ∷ 79 ∷ 72
      ∷ 105 ∷ 52 ∷ 45 ∷ 84 ∷ 108 ∷ 53 ∷ 117 ∷ 99 ∷ [];
  decoded_bytes =
      200 ∷ 201 ∷ 202 ∷ 203 ∷ 204 ∷ 205 ∷ 206 ∷ 207 ∷ 208 ∷ 209 ∷ 210 ∷ 211 ∷ 212 ∷ 213 ∷ 214 ∷ 215
      ∷ 216 ∷ 217 ∷ 218 ∷ 219 ∷ 220 ∷ 221 ∷ 222 ∷ 223 ∷ 224 ∷ 225 ∷ 226 ∷ 227 ∷ 228 ∷ 229 ∷ 230
      ∷ 231 ∷ [];
  sixbit_values =
      50 ∷ 12 ∷ 39 ∷ 10 ∷ 50 ∷ 60 ∷ 51 ∷ 13 ∷ 51 ∷ 44 ∷ 63 ∷ 16 ∷ 52 ∷ 29 ∷ 11 ∷ 19 ∷ 53 ∷ 13 ∷ 23
      ∷ 22 ∷ 53 ∷ 61 ∷ 35 ∷ 25 ∷ 54 ∷ 45 ∷ 47 ∷ 28 ∷ 55 ∷ 29 ∷ 59 ∷ 31 ∷ 56 ∷ 14 ∷ 7 ∷ 34 ∷ 56 ∷ 62
      ∷ 19 ∷ 37 ∷ 57 ∷ 46 ∷ 28 ∷ [];
  group_splits =
      (record { v1_hi2 = 0; v1_lo4 = 12; v2_hi4 = 9; v2_lo2 = 3 })
      ∷ (record { v1_hi2 = 3; v1_lo4 = 12; v2_hi4 = 12; v2_lo2 = 3 })
      ∷ (record { v1_hi2 = 2; v1_lo4 = 12; v2_hi4 = 15; v2_lo2 = 3 })
      ∷ (record { v1_hi2 = 1; v1_lo4 = 13; v2_hi4 = 2; v2_lo2 = 3 })
      ∷ (record { v1_hi2 = 0; v1_lo4 = 13; v2_hi4 = 5; v2_lo2 = 3 })
      ∷ (record { v1_hi2 = 3; v1_lo4 = 13; v2_hi4 = 8; v2_lo2 = 3 })
      ∷ (record { v1_hi2 = 2; v1_lo4 = 13; v2_hi4 = 11; v2_lo2 = 3 })
      ∷ (record { v1_hi2 = 1; v1_lo4 = 13; v2_hi4 = 14; v2_lo2 = 3 })
      ∷ (record { v1_hi2 = 0; v1_lo4 = 14; v2_hi4 = 1; v2_lo2 = 3 })
      ∷ (record { v1_hi2 = 3; v1_lo4 = 14; v2_hi4 = 4; v2_lo2 = 3 })
      ∷ [];
  remainder_splits = record { v1_hi2 = 2; v1_lo4 = 14; v2_hi4 = 7; v2_lo2 = 0 };
}

abbrev extracted : CnfExtractorTargets
extracted = record {
  slice_targets = record {
    packed_array =
        2065851246 ∷ 1713519227 ∷ 577402731 ∷ 574257954 ∷ 1802795298 ∷ 975324483 ∷ 573317731
        ∷ 1920344634 ∷ 575679794 ∷ 892740140 ∷ 578298426 ∷ 574705993 ∷ 1145192789 ∷ 1195538279
        ∷ 1245931379 ∷ 1296322868 ∷ 1346716229 ∷ 1397061713 ∷ 1447454819 ∷ 1497846383 ∷ 1648902704
        ∷ 1699248449 ∷ 573317753 ∷ 574235257 ∷ 1299073913 ∷ 947539578 ∷ 1935626544 ∷ 1682723889
        ∷ 1314412337 ∷ 963271218 ∷ 1953915699 ∷ 1681352244 ∷ 1330145588 ∷ 760507445 ∷ 1969431165
        ∷ 2105344000 ∷ 0 ∷ [];
    start_idx_bytes = 0;
    output_packed =
        2065851246 ∷ 1713519227 ∷ 577402731 ∷ 574257954 ∷ 1802795298 ∷ 975324483 ∷ 573317731
        ∷ 1920344634 ∷ 575679794 ∷ 892740140 ∷ 578298426 ∷ 574705993 ∷ 1145192789 ∷ 1195538279
        ∷ 1245931379 ∷ 1296322868 ∷ 1346716229 ∷ 1397061713 ∷ 1447454819 ∷ 1497846383 ∷ 1648902704
        ∷ 1699248449 ∷ 573317753 ∷ 574235257 ∷ 1299073913 ∷ 947539578 ∷ 1935626544 ∷ 1682723889
        ∷ 1314412337 ∷ 963271218 ∷ 1953915699 ∷ 1681352244 ∷ 1330145588 ∷ 760507445 ∷ 1969431165
        ∷ 2105344000 ∷ [];
    packed_indicator = 1 ∷ 0 ∷ [];
    start_idx_words = 0;
  };
  byte_offset = 1;
  byte_offset_indicator = 0 ∷ 1 ∷ 0 ∷ 0 ∷ [];
  x_limbs = [];
  y_limbs = [];
  substring_bytes_with_padding =
      123 ∷ 34 ∷ 99 ∷ 110 ∷ 102 ∷ 34 ∷ 58 ∷ 123 ∷ 34 ∷ 106 ∷ 119 ∷ 107 ∷ 34 ∷ 58 ∷ 123 ∷ 34 ∷ 107
      ∷ 116 ∷ 121 ∷ 34 ∷ 58 ∷ 34 ∷ 69 ∷ 67 ∷ 34 ∷ 44 ∷ 34 ∷ 99 ∷ 114 ∷ 118 ∷ 34 ∷ 58 ∷ 34 ∷ 80 ∷ 45
      ∷ 50 ∷ 53 ∷ 54 ∷ 34 ∷ 44 ∷ 34 ∷ 120 ∷ 34 ∷ 58 ∷ 34 ∷ 65 ∷ 81 ∷ 73 ∷ 68 ∷ 66 ∷ 65 ∷ 85 ∷ 71
      ∷ 66 ∷ 119 ∷ 103 ∷ 74 ∷ 67 ∷ 103 ∷ 115 ∷ 77 ∷ 68 ∷ 81 ∷ 52 ∷ 80 ∷ 69 ∷ 66 ∷ 69 ∷ 83 ∷ 69 ∷ 120
      ∷ 81 ∷ 86 ∷ 70 ∷ 104 ∷ 99 ∷ 89 ∷ 71 ∷ 82 ∷ 111 ∷ 98 ∷ 72 ∷ 66 ∷ 48 ∷ 101 ∷ 72 ∷ 121 ∷ 65 ∷ 34
      ∷ 44 ∷ 34 ∷ 121 ∷ 34 ∷ 58 ∷ 34 ∷ 121 ∷ 77 ∷ 110 ∷ 75 ∷ 121 ∷ 56 ∷ 122 ∷ 78 ∷ 122 ∷ 115 ∷ 95
      ∷ 81 ∷ 48 ∷ 100 ∷ 76 ∷ 84 ∷ 49 ∷ 78 ∷ 88 ∷ 87 ∷ 49 ∷ 57 ∷ 106 ∷ 90 ∷ 50 ∷ 116 ∷ 118 ∷ 99 ∷ 51
      ∷ 100 ∷ 55 ∷ 102 ∷ 52 ∷ 79 ∷ 72 ∷ 105 ∷ 52 ∷ 45 ∷ 84 ∷ 108 ∷ 53 ∷ 117 ∷ 99 ∷ 34 ∷ 125 ∷ 125
      ∷ 125 ∷ 0 ∷ 0 ∷ [];
  x_b64 = first_coordinate;
  y_b64 = second_coordinate;
}

extracted-holds : holds (make_cnf_extractor_circuit sample 148 extracted) ≡ true
unfolding make_cnf_extractor_circuit match_bytes pack_coord_limbs
    make_array_slice_circuit_packed_u32 slice_rule make_one_hot_indicator sum_from weighted_from
    unpack_words_to_bytes pack_4_bytes_be select_bytes_by_offset make_base64url_decode_circuit
    char_rule split_v1 split_v2 group_rule remainder2_rule remainder3_rule remainder_rule for_each
    connect_all virtual_target virtual_targets are_elements range_checked
extracted-holds = refl

-- The words of a payload are packed, whatever is checked of each.
packed_words :
    (n : ℕ)
    → list_eq
        (map (λ w. at extracted.slice_targets.packed_array w) (range n))
        (map (λ w. word_from payload (w * 4)) (range n))
      ≡ true
    → (w : ℕ) → w < n
    → at extracted.slice_targets.packed_array w ≡ word_from payload (w * 4)
packed_words n h w lt =
    let f : ℕ → ℕ = λ w. at extracted.slice_targets.packed_array w in
    let g : ℕ → ℕ = λ w. word_from payload (w * 4) in
    sym (get_or-map-range f n w 0 lt)
    ∙ ap (λ xs. at xs w) (list_eq_sound (map f (range n)) (map g (range n)) h)
    ∙ get_or-map-range g n w 0 lt

payload-IsPacked : IsPacked payload extracted.slice_targets.packed_array
unfolding word_from
payload-IsPacked = record {
  octets = omega arith;
  packed = λ w lt. packed_words 37 refl w (omega (arith, lt));
}

make_cnf_extractor_circuit-StandsAt_example :
    StandsAt
      (build_cnf_block first_coordinate.input_ascii second_coordinate.input_ascii)
      payload
      (0 + 1)
    × IsCoordinate first_coordinate
        (value (make_cnf_extractor_circuit sample 148 extracted)).x_limbs
    × IsCoordinate second_coordinate
        (value (make_cnf_extractor_circuit sample 148 extracted)).y_limbs
make_cnf_extractor_circuit-StandsAt_example =
    make_cnf_extractor_circuit-StandsAt sample payload extracted (omega arith) payload-IsPacked
      extracted-holds
