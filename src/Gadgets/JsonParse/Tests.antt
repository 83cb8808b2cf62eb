-- ===== src/Gadgets/JsonParse/Tests.antt =====
-- The theorems on the claim parser, at a small payload.
use dac_from_legacy_credenti.Prelude.{
  ℕ, ◌+◌, ◌-◌, ◌≡◌, ◌<◌, ◌≤◌, ◌↔◌, ◌*◌, zero, suc, refl, true, List, [], ◌∷◌, replicate, length, at,
  arith,
}
use dac_from_legacy_credenti.Prelude.Text.{find, starts_with, is_utf8, is_char_boundary}
use dac_from_legacy_credenti.Prelude.Outcome.{ok, err, claim_not_found}
use dac_from_legacy_credenti.Plonky2.Circuit.{
  holds, value, for_each, virtual_target, virtual_targets, are_elements, range_checked,
}
use dac_from_legacy_credenti.Gadgets.{
  sum_from, weighted_from, make_one_hot_indicator, pack_4_bytes_be, unpack_words_to_bytes,
  select_bytes_by_offset,
}
use dac_from_legacy_credenti.Gadgets.ArraySlice.{
  slice_rule, make_array_slice_circuit_packed_u32, one_hot_at, word_from,
  fill_array_slice_witness_packed_u32,
}
use dac_from_legacy_credenti.Gadgets.JsonParse.{
  JsonClaimTargetsKnownKey, structure_rule, char_at_close_from, prefix_sum_from_right, value_byte,
  quote_rule, pack_attribute, make_json_claim_circuit_known_key,
}
use dac_from_legacy_credenti.Gadgets.JsonParse.Fill.{fill_json_claim_witness_known_key}
use dac_from_legacy_credenti.Gadgets.JsonParse.Find.{
  ClaimPosition, find_claim_position, search_key_of,
}
use dac_from_legacy_credenti.Prelude.Text.Search.{StandsAt}
use dac_from_legacy_credenti.Credential.Attribute.{limbs_of}
use dac_from_legacy_credenti.Gadgets.Substring.{IsPacked}
use dac_from_legacy_credenti.Gadgets.JsonParse.Claim.{IsClaimAt, claim_bytes}
use dac_from_legacy_credenti.Gadgets.JsonParse.Sound.{make_json_claim_circuit_known_key-IsClaimAt}
use dac_from_legacy_credenti.Gadgets.JsonParse.Find.Laws.{
  find_claim_position-IsClaimAt, IsClaimAt-find_claim_position, find_claim_position-claim_not_found,
}
use dac_from_legacy_credenti.Sample.Prime.{sample, inverse_of}

-- `{"x":"yz","a":"bc"}`, and zeros up to a whole number of words.
abbrev payload : List ℕ
payload =
    123
    ∷ 34
    ∷ 120
    ∷ 34
    ∷ 58
    ∷ 34
    ∷ 121
    ∷ 122
    ∷ 34
    ∷ 44
    ∷ 34
    ∷ 97
    ∷ 34
    ∷ 58
    ∷ 34
    ∷ 98
    ∷ 99
    ∷ 34
    ∷ 125
    ∷ replicate 9 0

abbrev letter_a : List ℕ
letter_a = 97 ∷ []

abbrev found_a : ClaimPosition
found_a = record { key = letter_a; start = 10; value = 98 ∷ 99 ∷ []; colon_offset = 3 }

found_a-ok : find_claim_position payload letter_a ≡ ok found_a
unfolding find_claim_position find starts_with is_utf8 is_char_boundary
found_a-ok = refl

abbrev claimed : JsonClaimTargetsKnownKey
claimed = record {
  slice_targets = record {
    packed_array = 2065856546 ∷ 975337850 ∷ 573317729 ∷ 574235234 ∷ 1663204608 ∷ 0 ∷ 0 ∷ [];
    start_idx_bytes = 8;
    output_packed = 573317729 ∷ 574235234 ∷ 1663204608 ∷ 0 ∷ [];
    packed_indicator = 0 ∷ 0 ∷ 1 ∷ 0 ∷ [];
    start_idx_words = 2;
  };
  attribute_u32_words = [];
  attribute_len_bytes = 0;
  value_len = 2;
  value_len_indicator = 0 ∷ 1 ∷ 0 ∷ 0 ∷ [];
  byte_offset = 1;
  byte_offset_indicator = 0 ∷ 1 ∷ 0 ∷ 0 ∷ [];
  substring_bytes_with_padding =
      34 ∷ 44 ∷ 34 ∷ 97 ∷ 34 ∷ 58 ∷ 34 ∷ 98 ∷ 99 ∷ 34 ∷ 125 ∷ 0 ∷ 0 ∷ 0 ∷ 0 ∷ 0 ∷ [];
  value_quote_inv = 1140850692 ∷ 3898508790 ∷ 0 ∷ 0 ∷ [];
}

-- The prover's assignment for this payload satisfies the circuit.
claimed_filled : fill_json_claim_witness_known_key sample 7 4 4 payload found_a ≡ ok claimed
unfolding fill_json_claim_witness_known_key fill_array_slice_witness_packed_u32 one_hot_at word_from
    inverse_of
claimed_filled = refl

claimed-holds : holds (make_json_claim_circuit_known_key sample 28 letter_a 4 4 claimed) ≡ true
unfolding make_json_claim_circuit_known_key structure_rule char_at_close_from prefix_sum_from_right
    value_byte quote_rule pack_attribute make_array_slice_circuit_packed_u32 slice_rule
    make_one_hot_indicator sum_from weighted_from unpack_words_to_bytes pack_4_bytes_be
    select_bytes_by_offset for_each virtual_target virtual_targets are_elements range_checked
claimed-holds = refl

payload-IsPacked : IsPacked payload claimed.slice_targets.packed_array
unfolding word_from
payload-IsPacked = record { octets = omega arith; packed = words }
  where
    words :
        (w : ℕ) → w * 4 < 28 → at claimed.slice_targets.packed_array w ≡ word_from payload (w * 4)
    words zero lt = refl
    words (suc zero) lt = refl
    words (suc (suc zero)) lt = refl
    words (suc (suc (suc zero))) lt = refl
    words (suc (suc (suc (suc zero)))) lt = refl
    words (suc (suc (suc (suc (suc zero))))) lt = refl
    words (suc (suc (suc (suc (suc (suc zero)))))) lt = refl
    words (suc (suc (suc (suc (suc (suc (suc w))))))) lt = absurd (omega (arith, lt))

make_json_claim_circuit_known_key-IsClaimAt_example :
    (val : List ℕ) × (length val ≡ 2)
    × (0 < 2)
    × (2 ≤ 4)
    × IsClaimAt payload letter_a val (8 + 1)
    × ((value
          (make_json_claim_circuit_known_key sample 28 letter_a 4 4 claimed)).attribute_u32_words
        ≡ limbs_of (claim_bytes 4 4 letter_a val))
make_json_claim_circuit_known_key-IsClaimAt_example =
    make_json_claim_circuit_known_key-IsClaimAt sample payload letter_a 4 4 claimed (omega arith)
      (omega arith) payload-IsPacked claimed-holds

find_claim_position-IsClaimAt_example :
    (0 < 10)
    × IsClaimAt payload letter_a (98 ∷ 99 ∷ []) (10 - 1)
    × ((j : ℕ) → StandsAt (search_key_of letter_a) payload j → 10 ≤ j)
    × (letter_a ≡ letter_a)
    × (3 ≡ length letter_a + 2)
find_claim_position-IsClaimAt_example =
    find_claim_position-IsClaimAt payload letter_a found_a found_a-ok refl

utf8 : is_utf8 payload ≡ true
unfolding is_utf8
utf8 = refl

IsClaimAt-find_claim_position_example : find_claim_position payload letter_a ≡ ok found_a
IsClaimAt-find_claim_position_example =
    IsClaimAt-find_claim_position payload letter_a (98 ∷ 99 ∷ []) 9 utf8
      (find_claim_position-IsClaimAt payload letter_a found_a found_a-ok refl).1
      (find_claim_position-IsClaimAt payload letter_a found_a found_a-ok refl).2

find_claim_position-claim_not_found_example :
    (find_claim_position payload (98 ∷ []) ≡ err claim_not_found)
    ↔ ((j : ℕ) → StandsAt (search_key_of (98 ∷ [])) payload j → ⊥)
find_claim_position-claim_not_found_example =
    find_claim_position-claim_not_found payload (98 ∷ []) utf8
