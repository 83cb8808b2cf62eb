-- ===== src/Gadgets/CnfParse/Sound.antt =====
-- What the CNF extractor enforces.
use dac_from_legacy_credenti.Prelude.{
  ℕ, ◌+◌, ◌^◌, ◌<◌, ◌≡◌, ap, subst, ◌∙◌, true, List, at, length, arith,
}
use dac_from_legacy_credenti.Prelude.Text.Search.{StandsAt}
use dac_from_legacy_credenti.Plonky2.Field.{Builder}
use dac_from_legacy_credenti.Plonky2.Circuit.{holds, value}
use dac_from_legacy_credenti.Credential.Attribute.{limbs_of}
use dac_from_legacy_credenti.Credential.Cnf.{
  cnf_prefix, cnf_xy_separator, cnf_closing, build_cnf_block,
}
use dac_from_legacy_credenti.Credential.Cnf.Block.{BlockAt-StandsAt}
use dac_from_legacy_credenti.Gadgets.Substring.{
  IsPacked, length-select, select_bytes_by_offset-eq_json,
}
use dac_from_legacy_credenti.Gadgets.Base64.{Base64DecodeTargets}
use dac_from_legacy_credenti.Gadgets.Base64.Decode.{
  IsDecoding, make_base64url_decode_circuit-IsDecoding,
}
use dac_from_legacy_credenti.Gadgets.CnfParse.{CnfExtractorTargets, make_cnf_extractor_circuit}
use dac_from_legacy_credenti.Gadgets.CnfParse.Parts.{
  IsDecoding-octets, match_bytes-StandsAt, slice_of_bytes-StandsAt, pack_coord_limbs-limbs_of,
  circuit-Parts,
}

-- A key coordinate of a satisfied extractor: its characters, their bytes and the limbs.
pub record IsCoordinate (t : Base64DecodeTargets) (limbs : List ℕ) : Type 0 where
  pub characters : length t.input_ascii ≡ 43
  pub decoding : IsDecoding 43 t
  pub size : length t.decoded_bytes ≡ 32
  pub packed : limbs ≡ limbs_of t.decoded_bytes

-- An assignment that satisfies the extractor, over words that pack a payload of bytes shorter than
-- 4 GiB: at the position that the prover chose, the payload holds the whole `cnf` block of two
-- coordinates of 43 characters, which decode as base64url to 32 bytes each, and the extracted limbs
-- are those of these bytes.
pub make_cnf_extractor_circuit-StandsAt :
    (b : Builder) (json : List ℕ) (t : CnfExtractorTargets)
    → length json < 2 ^ 32
    → IsPacked json t.slice_targets.packed_array
    → holds (make_cnf_extractor_circuit b (length json) t) ≡ true
    → StandsAt
        (build_cnf_block t.x_b64.input_ascii t.y_b64.input_ascii)
        json
        (t.slice_targets.start_idx_bytes + t.byte_offset)
      × IsCoordinate t.x_b64 (value (make_cnf_extractor_circuit b (length json) t)).x_limbs
      × IsCoordinate t.y_b64 (value (make_cnf_extractor_circuit b (length json) t)).y_limbs
make_cnf_extractor_circuit-StandsAt b json t small packing e =
    let parts = circuit-Parts b (length json) t e in
    let p = t.slice_targets.start_idx_bytes + t.byte_offset in
    let x = t.x_b64.input_ascii in
    let y = t.y_b64.input_ascii in
    let (fits, same_selected) =
      select_bytes_by_offset-eq_json b json 144 140 t.slice_targets t.substring_bytes_with_padding
        (record { indicator = t.byte_offset_indicator; value = t.byte_offset }) small (omega arith)
        (omega arith) packing parts.selects in
    let same : (j : ℕ) → j < 140 → at parts.bytes j ≡ at json (p + j) =
      λ j lt. ap (λ bytes. at bytes j) parts.bytes_lem ∙ same_selected j lt in
    let size : length parts.bytes ≡ 140 =
      ap length parts.bytes_lem
      ∙ length-select b t.substring_bytes_with_padding t.byte_offset_indicator 140 in
    let (xl, xs) =
      slice_of_bytes-StandsAt json parts.bytes x p 44 43 140 size (omega arith) fits same
        parts.x_same in
    let (yl, ys) =
      slice_of_bytes-StandsAt json parts.bytes y p 94 43 140 size (omega arith) fits same
        parts.y_same in
    let prefixed =
      match_bytes-StandsAt json parts.bytes cnf_prefix p 0 140 (omega arith) fits same
        parts.prefixed in
    let separated =
      match_bytes-StandsAt json parts.bytes cnf_xy_separator p 87 140 (omega arith) fits same
        parts.separated in
    let closed =
      match_bytes-StandsAt json parts.bytes cnf_closing p 137 140 (omega arith) fits same
        parts.closed in
    let x_decoding = make_base64url_decode_circuit-IsDecoding b 43 t.x_b64 parts.x_decoded in
    let y_decoding = make_base64url_decode_circuit-IsDecoding b 43 t.y_b64 parts.y_decoded in
    (
      BlockAt-StandsAt json x y p (record {
        prefix_stands = subst (StandsAt cnf_prefix json) (omega arith) prefixed;
        x_stands = xs;
        separator_stands = subst (StandsAt cnf_xy_separator json) (omega (arith, xl)) separated;
        y_stands = subst (StandsAt y json) (omega (arith, xl)) ys;
        closing_stands = subst (StandsAt cnf_closing json) (omega (arith, xl, yl)) closed;
      }),
      record {
        characters = xl;
        decoding = x_decoding;
        size = parts.x_packed;
        packed =
            parts.x_words
            ∙ pack_coord_limbs-limbs_of b t.x_b64.decoded_bytes parts.x_packed
                (IsDecoding-octets t.x_b64 x_decoding parts.x_packed);
      },
      record {
        characters = yl;
        decoding = y_decoding;
        size = parts.y_packed;
        packed =
            parts.y_words
            ∙ pack_coord_limbs-limbs_of b t.y_b64.decoded_bytes parts.y_packed
                (IsDecoding-octets t.y_b64 y_decoding parts.y_packed);
      },
    )
