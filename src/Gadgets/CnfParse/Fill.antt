-- ===== src/Gadgets/CnfParse/Fill.antt =====
-- `fill_cnf_extractor_witness` of src/circuits/gadgets/cnf_parse.rs.
use dac_from_legacy_credenti.Prelude.{ℕ, ◌+◌, ◌*◌, ◌/◌, ◌%◌, List, [], map, at, range}
use dac_from_legacy_credenti.Prelude.Outcome.{Result, ok, ◌>>=◌}
use dac_from_legacy_credenti.Credential.Cnf.{b64url_coord_len}
use dac_from_legacy_credenti.Credential.Cnf.Coords.{Codec}
use dac_from_legacy_credenti.Gadgets.ArraySlice.{one_hot_at, fill_array_slice_witness_packed_u32}
use dac_from_legacy_credenti.Gadgets.Base64.Fill.{fill_base64url_decode_witness}
use dac_from_legacy_credenti.Gadgets.CnfParse.{
  CnfExtractorTargets, coord_bytes, cnf_slice_len_with_padding,
}

-- The assignment that the prover writes. What the circuit computes, the limbs, is left empty.
unfoldable pub fill_cnf_extractor_witness :
    Codec → ℕ → List ℕ → ℕ → List ℕ → List ℕ → Result CnfExtractorTargets
fill_cnf_extractor_witness codec json_len_words padded_payload cnf_start x_b64 y_b64 = do
  slice_targets ←
      fill_array_slice_witness_packed_u32 json_len_words (cnf_slice_len_with_padding / 4)
        padded_payload cnf_start
  let byte_offset_val = cnf_start % 4
  let start_word = cnf_start / 4
  x_decoded ← codec.base64url_decode x_b64
  y_decoded ← codec.base64url_decode y_b64
  x_targets ← fill_base64url_decode_witness b64url_coord_len coord_bytes x_b64 x_decoded
  y_targets ← fill_base64url_decode_witness b64url_coord_len coord_bytes y_b64 y_decoded
  ok (record {
    slice_targets = slice_targets;
    byte_offset = byte_offset_val;
    byte_offset_indicator = one_hot_at 4 byte_offset_val;
    x_limbs = [];
    y_limbs = [];
    substring_bytes_with_padding =
        map (λ byte_idx. at padded_payload (start_word * 4 + byte_idx))
          (range cnf_slice_len_with_padding);
    x_b64 = x_targets;
    y_b64 = y_targets;
  })
