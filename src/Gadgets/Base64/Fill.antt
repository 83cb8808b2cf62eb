-- ===== src/Gadgets/Base64/Fill.antt =====
-- `fill_base64url_decode_witness` of src/circuits/gadgets/base64.rs.
use dac_from_legacy_credenti.Prelude.{
  ℕ, ◌+◌, ◌*◌, ◌/◌, ◌%◌, List, [], ◌∷◌, map, at, length, ◌==◌, range,
}
use dac_from_legacy_credenti.Prelude.Outcome.{Result, ok, length_mismatch, ensure, ◌>>=◌, ◌>>◌}
use dac_from_legacy_credenti.Gadgets.Base64.{
  base64url_char_to_value, GroupSplitTargets, Base64DecodeTargets,
}

-- `.map(|&c| base64url_char_to_value(c)).collect::<Result<Vec<_>>>()`
unfoldable pub sixbits_of : List ℕ → Result (List ℕ)
sixbits_of [] = ok []
sixbits_of (c ∷ cs) = do v ← base64url_char_to_value c; vs ← sixbits_of cs; ok (v ∷ vs)

unfoldable pub splits_of : ℕ → ℕ → GroupSplitTargets
splits_of v1 v2 = record { v1_hi2 = v1 / 16; v1_lo4 = v1 % 16; v2_hi4 = v2 / 4; v2_lo2 = v2 % 4 }

-- The assignment that the prover writes, for targets of the given lengths.
unfoldable pub fill_base64url_decode_witness : ℕ → ℕ → List ℕ → List ℕ → Result Base64DecodeTargets
fill_base64url_decode_witness input_len decoded_len encoded_ascii decoded_bytes = do
  ensure (length encoded_ascii == input_len) length_mismatch
  ensure (length decoded_bytes == decoded_len) length_mismatch
  vals ← sixbits_of encoded_ascii
  let full_groups = length encoded_ascii / 4
  ok (record {
    input_ascii = encoded_ascii;
    decoded_bytes = decoded_bytes;
    sixbit_values = vals;
    group_splits =
        map (λ g. splits_of (at vals (g * 4 + 1)) (at vals (g * 4 + 2))) (range full_groups);
    remainder_splits = splits_of (at vals (full_groups * 4 + 1)) (at vals (full_groups * 4 + 2));
  })
