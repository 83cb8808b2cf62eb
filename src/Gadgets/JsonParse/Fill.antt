-- ===== src/Gadgets/JsonParse/Fill.antt =====
-- `fill_json_claim_witness_known_key` of src/circuits/gadgets/json_parse.rs.
use dac_from_legacy_credenti.Prelude.{
  ℕ, ◌+◌, ◌-◌, ◌*◌, ◌/◌, ◌%◌, not, List, [], ◌∷◌, map, at, length, ltb, ◌==◌, range,
}
use dac_from_legacy_credenti.Prelude.Outcome.{
  Result, ok, ensure, ◌>>=◌, ◌>>◌, panicked, empty_value,
}
use dac_from_legacy_credenti.Plonky2.Field.{Builder}
use dac_from_legacy_credenti.Gadgets.ArraySlice.{fill_array_slice_witness_packed_u32, one_hot_at}
use dac_from_legacy_credenti.Gadgets.JsonParse.{quote, JsonClaimTargetsKnownKey}
use dac_from_legacy_credenti.Gadgets.JsonParse.Find.{ClaimPosition}

module _ (b : Builder) where
  -- The inverses for the targets from index `j` on: each byte of the value differs from the quote.
  unfoldable pub inverses_of : ℕ → List ℕ → Result (List ℕ)
  inverses_of count [] = ok (map (λ _. 0) (range count))
  inverses_of ℕ.zero (c ∷ value) = ok []
  inverses_of (ℕ.suc count) (c ∷ value) = do
    let diff_f = b.sub c quote
    ensure (not (diff_f == 0)) panicked
    rest ← inverses_of count value
    ok (b.inverse diff_f ∷ rest)

  -- The assignment that the prover writes, for targets of the given lengths. What the circuit
  -- computes, the words of the attribute, is left empty.
  unfoldable pub fill_json_claim_witness_known_key :
      ℕ → ℕ → ℕ → List ℕ → ClaimPosition → Result JsonClaimTargetsKnownKey
  unfolding inverses_of
  fill_json_claim_witness_known_key json_len_words slice_len_words max_value_len json_payload
        claim =
      do
        ensure (ltb 0 claim.start) panicked
        let adjusted_start = claim.start - 1
        slice_targets ←
            fill_array_slice_witness_packed_u32 json_len_words slice_len_words json_payload
              adjusted_start
        let val_len = length claim.value
        ensure (not (val_len == 0)) empty_value
        let byte_offset_val = adjusted_start % 4
        let start_aligned = adjusted_start / 4 * 4
        value_quote_inv ← inverses_of max_value_len claim.value
        ok (record {
          slice_targets = slice_targets;
          attribute_u32_words = [];
          attribute_len_bytes = 0;
          value_len = val_len;
          value_len_indicator = one_hot_at max_value_len (val_len - 1);
          byte_offset = byte_offset_val;
          byte_offset_indicator = one_hot_at 4 byte_offset_val;
          substring_bytes_with_padding =
              map (λ j. at json_payload (start_aligned + j)) (range (slice_len_words * 4));
          value_quote_inv = value_quote_inv;
        })
