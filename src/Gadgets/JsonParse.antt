-- ===== src/Gadgets/JsonParse.antt =====
-- src/circuits/gadgets/json_parse.rs: extraction of one claim of a JSON payload by a circuit that
-- knows the key, and the search for its position outside the circuit.
pub mod Value
pub mod Claim
pub mod Parts
pub mod Window
pub mod Sound
pub mod Find
pub mod Fill
mod Tests
use dac_from_legacy_credenti.Prelude.{
  ℕ, suc, ◌+◌, ◌-◌, ◌*◌, ◌/◌, ◌%◌, Bool, true, false, ◌&&◌, List, [], ◌∷◌, ◌++◌, map, at, length,
  leb, ltb, ◌==◌, range, if◌then◌else◌,
}
use dac_from_legacy_credenti.Plonky2.Field.{Builder}
use dac_from_legacy_credenti.Plonky2.Circuit.{
  Circuit, Done, ◌>>=◌, ◌>>◌, pure, assert, connect, for_each, virtual_targets,
}
use dac_from_legacy_credenti.Gadgets.{
  OneHotTargets, make_one_hot_indicator, pack_4_bytes_be, unpack_words_to_bytes,
  select_bytes_by_offset,
}
use dac_from_legacy_credenti.Gadgets.ArraySlice.{
  PackedArraySliceTargets, make_array_slice_circuit_packed_u32,
}

-- The bytes of JSON's punctuation.
abbrev pub quote : ℕ
quote = 0x22

abbrev pub colon : ℕ
colon = 0x3a

abbrev pub left_brace : ℕ
left_brace = 0x7b

abbrev pub comma : ℕ
comma = 0x2c

pub record JsonClaimTargetsKnownKey : Type 0 where
  pub slice_targets : PackedArraySliceTargets
  pub attribute_u32_words : List ℕ
  pub attribute_len_bytes : ℕ
  pub value_len : ℕ
  pub value_len_indicator : List ℕ
  pub byte_offset : ℕ
  pub byte_offset_indicator : List ℕ
  pub substring_bytes_with_padding : List ℕ
  pub value_quote_inv : List ℕ

-- The length of the delimiter, `"key":"value"` and what follows, in whole words.
pub per_claim_substring_len : ℕ → ℕ → ℕ
per_claim_substring_len key_len max_value_len =
    let min_substring_len = key_len + max_value_len + 7 in (min_substring_len + 3) / 4 * 4

-- The key's bytes, padded by zeros.
pub key_bytes : ℕ → List ℕ → List ℕ
key_bytes max_key_len key =
    map (λ j. if ltb j (length key) then at key j else 0) (range max_key_len)

module _ (b : Builder) where
  -- The delimiter, the key in quotes, the colon and the quote that opens the value.
  pub structure_rule : List ℕ → List ℕ → Circuit Done
  structure_rule key substring_bytes = do
    let key_len = length key
    let diff_brace = b.sub (at substring_bytes 0) left_brace
    let diff_comma = b.sub (at substring_bytes 0) comma
    connect (b.mul diff_brace diff_comma) 0
    connect (at substring_bytes 1) quote
    for_each (λ j. connect (at substring_bytes (2 + j)) (at key j)) (range key_len)
    connect (at substring_bytes (2 + key_len)) quote
    connect (at substring_bytes (3 + key_len)) colon
    connect (at substring_bytes (4 + key_len)) quote

  -- The loop that adds up `char_at_close`, from index `v` of the indicator on.
  pub char_at_close_from : ℕ → ℕ → List ℕ → ℕ → ℕ → List ℕ → ℕ
  char_at_close_from limit value_start bytes char_at_close v [] = char_at_close
  char_at_close_from limit value_start bytes char_at_close v (ind ∷ rest) =
      let close_pos = value_start + (v + 1) in
      char_at_close_from limit value_start bytes
        (if ltb close_pos limit
          then b.add char_at_close (b.mul ind (at bytes close_pos))
          else char_at_close)
        (suc v) rest

  unfoldable pub prefix_sum_from_right : List ℕ → List ℕ
  prefix_sum_from_right [] = 0 ∷ []
  prefix_sum_from_right (ind ∷ rest) =
      let sums = prefix_sum_from_right rest in b.add (at sums 0) ind ∷ sums

  -- `value_bytes[j]`
  pub value_byte : ℕ → ℕ → List ℕ → List ℕ → ℕ → ℕ
  value_byte limit value_start bytes sums j =
      let raw_idx = value_start + j in
      if ltb raw_idx limit then b.mul (at bytes raw_idx) (at sums j) else 0

  -- A byte within the value differs from the quote, since the difference has an inverse.
  pub quote_rule : ℕ → ℕ → List ℕ → List ℕ → List ℕ → ℕ → Circuit Done
  quote_rule limit value_start bytes sums value_quote_inv j =
      let raw_idx = value_start + j in
      if ltb raw_idx limit
      then connect (b.mul (b.sub (at bytes raw_idx) quote) (at value_quote_inv j)) (at sums j)
      else pure tt

  -- The words of the attribute, the last four bytes first.
  pub pack_attribute : ℕ → List ℕ → List ℕ
  pack_attribute attribute_len_bytes attribute_bytes =
      map
        (λ limb_idx.
          let start = attribute_len_bytes - (limb_idx + 1) * 4 in
          pack_4_bytes_be b (at attribute_bytes start) (at attribute_bytes (start + 1))
            (at attribute_bytes (start + 2)) (at attribute_bytes (start + 3)))
        (range (attribute_len_bytes / 4))

  -- The assignment `t` gives the virtual targets; the words and their length are computed.
  pub make_json_claim_circuit_known_key :
      ℕ → List ℕ → ℕ → ℕ → JsonClaimTargetsKnownKey → Circuit JsonClaimTargetsKnownKey
  unfolding per_claim_substring_len key_bytes
  make_json_claim_circuit_known_key json_len_bytes key max_value_len max_key_len t = do
    assert (ltb 0 (length key) && ltb 0 max_value_len)
    assert (leb (length key) max_key_len)
    assert (json_len_bytes % 4 == 0)
    assert (max_value_len % 4 == 0)
    assert (max_key_len % 4 == 0)
    let key_len = length key
    let attribute_len_bytes = max_key_len + max_value_len
    let limit = per_claim_substring_len key_len max_value_len
    slice_targets ← make_array_slice_circuit_packed_u32 b json_len_bytes (limit + 4) t.slice_targets
    padded_bytes ←
        unpack_words_to_bytes b slice_targets.output_packed t.substring_bytes_with_padding
    offset_one_hot ←
        make_one_hot_indicator b 4 0
          (record { indicator = t.byte_offset_indicator; value = t.byte_offset })
    let bytes = select_bytes_by_offset b padded_bytes offset_one_hot.indicator limit
    structure_rule key bytes
    vlen_one_hot ←
        make_one_hot_indicator b max_value_len 1
          (record { indicator = t.value_len_indicator; value = t.value_len })
    let value_start = 5 + key_len
    connect (char_at_close_from limit value_start bytes 0 0 vlen_one_hot.indicator) quote
    let sums = prefix_sum_from_right vlen_one_hot.indicator
    let value_bytes = map (value_byte limit value_start bytes sums) (range max_value_len)
    value_quote_inv ← virtual_targets b max_value_len t.value_quote_inv
    for_each (quote_rule limit value_start bytes sums value_quote_inv) (range max_value_len)
    pure (record t {
      attribute_u32_words =
          pack_attribute attribute_len_bytes (key_bytes max_key_len key ++ value_bytes);
      attribute_len_bytes = attribute_len_bytes;
    })
