-- ===== src/Gadgets/CnfParse.antt =====
-- src/circuits/gadgets/cnf_parse.rs: extraction of the holder's key from the payload's `cnf` block.
pub mod Parts
pub mod Sound
pub mod Fill
mod Tests
use dac_from_legacy_credenti.Prelude.{
  ℕ, ◌+◌, ◌-◌, ◌*◌, ◌/◌, ◌%◌, Bool, true, false, ◌&&◌, List, [], ◌∷◌, map, at, length, take, drop,
  ◌==◌, range,
}
use dac_from_legacy_credenti.Prelude.Outcome.{Result, ok}
use dac_from_legacy_credenti.Prelude.Outcome
use dac_from_legacy_credenti.Plonky2.Field.{Builder}
use dac_from_legacy_credenti.Plonky2.Circuit.{
  Circuit, Done, ◌>>=◌, ◌>>◌, pure, assert, connect, connect_all, for_each,
}
use dac_from_legacy_credenti.Credential.Cnf.{
  cnf_prefix, cnf_xy_separator, cnf_closing, b64url_coord_len, cnf_block_len,
}
use dac_from_legacy_credenti.Gadgets.{
  OneHotTargets, make_one_hot_indicator, pack_4_bytes_be, unpack_words_to_bytes,
  select_bytes_by_offset,
}
use dac_from_legacy_credenti.Gadgets.ArraySlice.{
  PackedArraySliceTargets, make_array_slice_circuit_packed_u32,
}
use dac_from_legacy_credenti.Gadgets.Base64.{Base64DecodeTargets, make_base64url_decode_circuit}
use dac_from_legacy_credenti.Gadgets.Base64.Fill.{fill_base64url_decode_witness}

abbrev pub coord_u32_limbs : ℕ
coord_u32_limbs = 8

abbrev pub coord_bytes : ℕ
coord_bytes = 32

abbrev pub cnf_substring_len : ℕ
cnf_substring_len = (cnf_block_len + 3) / 4 * 4

abbrev pub cnf_slice_len_with_padding : ℕ
cnf_slice_len_with_padding = cnf_substring_len + 4

pub record CnfExtractorTargets : Type 0 where
  pub slice_targets : PackedArraySliceTargets
  pub byte_offset : ℕ
  pub byte_offset_indicator : List ℕ
  pub x_limbs : List ℕ
  pub y_limbs : List ℕ
  pub substring_bytes_with_padding : List ℕ
  pub x_b64 : Base64DecodeTargets
  pub y_b64 : Base64DecodeTargets

-- The constants of a text, at their places in the substring.
unfoldable pub match_bytes : List ℕ → ℕ → List ℕ → Circuit Done
match_bytes substring_bytes start text =
    for_each (λ j. connect (at substring_bytes (start + j)) (at text j)) (range (length text))

module _ (b : Builder) where
  unfoldable pub pack_coord_limbs : List ℕ → Circuit (List ℕ)
  pack_coord_limbs decoded_bytes = do
    assert (length decoded_bytes == coord_bytes)
    pure (
        map
          (λ i.
            let byte_start = (coord_u32_limbs - 1 - i) * 4 in
            pack_4_bytes_be b (at decoded_bytes byte_start) (at decoded_bytes (byte_start + 1))
              (at decoded_bytes (byte_start + 2)) (at decoded_bytes (byte_start + 3)))
          (range coord_u32_limbs))

  -- The assignment `t` gives the virtual targets; the limbs are computed.
  unfoldable pub make_cnf_extractor_circuit : ℕ → CnfExtractorTargets → Circuit CnfExtractorTargets
  make_cnf_extractor_circuit json_len_bytes t = do
    assert (json_len_bytes % 4 == 0)
    slice_targets ←
        make_array_slice_circuit_packed_u32 b json_len_bytes cnf_slice_len_with_padding
          t.slice_targets
    padded_bytes ←
        unpack_words_to_bytes b slice_targets.output_packed t.substring_bytes_with_padding
    offset_one_hot ←
        make_one_hot_indicator b 4 0
          (record { indicator = t.byte_offset_indicator; value = t.byte_offset })
    let bytes = select_bytes_by_offset b padded_bytes offset_one_hot.indicator cnf_block_len
    match_bytes bytes 0 cnf_prefix
    let x_start = length cnf_prefix
    let sep_start = x_start + b64url_coord_len
    match_bytes bytes sep_start cnf_xy_separator
    let y_start = sep_start + length cnf_xy_separator
    let closing_start = y_start + b64url_coord_len
    match_bytes bytes closing_start cnf_closing
    x_b64 ← make_base64url_decode_circuit b b64url_coord_len t.x_b64
    y_b64 ← make_base64url_decode_circuit b b64url_coord_len t.y_b64
    connect_all x_b64.input_ascii (take b64url_coord_len (drop x_start bytes))
    connect_all y_b64.input_ascii (take b64url_coord_len (drop y_start bytes))
    x_limbs ← pack_coord_limbs x_b64.decoded_bytes
    y_limbs ← pack_coord_limbs y_b64.decoded_bytes
    pure (record t { x_limbs = x_limbs; y_limbs = y_limbs })
