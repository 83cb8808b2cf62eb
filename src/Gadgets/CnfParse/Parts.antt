-- ===== src/Gadgets/CnfParse/Parts.antt =====
-- What the parts of the CNF extractor enforce: the matched texts, the coordinates and their limbs.
use dac_from_legacy_credenti.Prelude.{
  ℕ, zero, suc, ◌+◌, ◌-◌, ◌*◌, ◌/◌, ◌%◌, ◌≤◌, ◌<◌, ◌≡◌, refl, sym, ap, ◌∙◌, true, List, All, at,
  length, take, drop, map, range, length-take, length-drop, ==_iff, &&-split, dec_lt, ℕ_discrete,
  map-range, arith,
}
use dac_from_legacy_credenti.Prelude.Index.{get_or-take, get_or-drop, All-of_get_or}
use dac_from_legacy_credenti.Prelude.Text.Search.{StandsAt}
use dac_from_legacy_credenti.Plonky2.Field.{Builder}
use dac_from_legacy_credenti.Plonky2.Circuit.{
  holds, value, connect, connect_all-eq, for_each-range, virtual_targets,
}
use dac_from_legacy_credenti.Credential.Attribute.{limbs_of, word_at, from_be_bytes}
use dac_from_legacy_credenti.Credential.Cnf.{cnf_prefix, cnf_xy_separator, cnf_closing}
use dac_from_legacy_credenti.Gadgets.{
  make_one_hot_indicator, unpack_words_to_bytes, select_bytes_by_offset,
}
use dac_from_legacy_credenti.Gadgets.Bytes.{pack_4_bytes_be-be_word}
use dac_from_legacy_credenti.Gadgets.ArraySlice.{make_array_slice_circuit_packed_u32}
use dac_from_legacy_credenti.Gadgets.Substring.{octet_at, Selects}
use dac_from_legacy_credenti.Gadgets.Base64.{Base64DecodeTargets, make_base64url_decode_circuit}
use dac_from_legacy_credenti.Gadgets.Base64.Decode.{IsDecoding}
use dac_from_legacy_credenti.Gadgets.CnfParse.{
  CnfExtractorTargets, cnf_slice_len_with_padding, match_bytes, pack_coord_limbs,
  make_cnf_extractor_circuit,
}

-- The bytes that a coordinate of 43 characters decodes to are bytes.
pub IsDecoding-octets :
    (t : Base64DecodeTargets)
    → IsDecoding 43 t
    → length t.decoded_bytes ≡ 32
    → All (λ c. c < 256) t.decoded_bytes
IsDecoding-octets t d size =
    All-of_get_or (λ c. c < 256) t.decoded_bytes 0 (λ i lt. octet i (omega (arith, lt, size)))
  where
    value : (i : ℕ) → i < 43 → at t.sixbit_values i < 64
    value i lt = (d.values i lt).0

    group : (g r : ℕ) → g < 10 → r < 3 → at t.decoded_bytes (g * 3 + r) < 256
    group g zero lt small =
        rw (ap (at t.decoded_bytes) {x = g * 3 + 0} {y = g * 3} (omega arith) ∙ (d.groups g lt).0)
          (omega (arith, value (g * 4) (omega (arith, lt)), value (g * 4 + 1) (omega (arith, lt))))
    group g (suc zero) lt small =
        rw ((d.groups g lt).1) (omega (arith, value (g * 4 + 2) (omega (arith, lt))))
    group g (suc (suc zero)) lt small =
        rw ((d.groups g lt).2) (omega (arith, value (g * 4 + 3) (omega (arith, lt))))
    group g (suc (suc (suc r))) lt small = absurd (omega (arith, small))

    octet : (i : ℕ) → i < 32 → at t.decoded_bytes i < 256
    octet i lt = elim (dec_lt i 30) [
      | yes inside ↦
          rw (ap (at t.decoded_bytes) {x = i} {y = i / 3 * 3 + i % 3} (omega arith))
            (group (i / 3) (i % 3) (omega (arith, inside)) (omega arith))
      | no other ↦ elim (ℕ_discrete i 30) [
        | yes e ↦
            rw (ap (at t.decoded_bytes) e ∙ (d.last_two refl).0)
              (omega (arith, value 40 (omega arith), value 41 (omega arith)))
        | no ne ↦
            rw (ap (at t.decoded_bytes) {x = i} {y = 31} (omega arith) ∙ (d.last_two refl).1)
              (omega (arith, value 42 (omega arith)))
      ]
    ]

-- A text that is matched stands in the payload where the substring does.
pub match_bytes-StandsAt :
    (json bytes text : List ℕ) (p start count : ℕ)
    → start + length text ≤ count
    → (p + count ≤ length json)
    → ((j : ℕ) → j < count → at bytes j ≡ at json (p + j))
    → holds (match_bytes bytes start text) ≡ true
    → StandsAt text json (p + start)
unfolding match_bytes
match_bytes-StandsAt json bytes text p start count room fits same e = record {
  fits = omega (arith, room, fits);
  same = λ j lt.
      ap (at json) {y = p + (start + j)} (omega arith)
      ∙ sym (same (start + j) (omega (arith, room, lt)))
      ∙ (==_iff (at bytes (start + j)) (at text j)).0
          (for_each-range (λ j. connect (at bytes (start + j)) (at text j)) (length text) j e lt);
}

-- So does a slice of the substring.
pub slice_of_bytes-StandsAt :
    (json bytes xs : List ℕ) (p start n count : ℕ)
    → length bytes ≡ count
    → start + n ≤ count
    → (p + count ≤ length json)
    → ((j : ℕ) → j < count → at bytes j ≡ at json (p + j))
    → xs ≡ take n (drop start bytes)
    → (length xs ≡ n) × StandsAt xs json (p + start)
slice_of_bytes-StandsAt json bytes xs p start n count size room fits same e =
    let rest = drop start bytes in
    let long : length xs ≡ n =
      ap length e ∙ length-take n rest ∙ omega (arith, length-drop start bytes, size, room) in
    (
      long,
      record {
        fits = omega (arith, long, room, fits);
        same = λ j lt.
            ap (at json) {y = p + (start + j)} (omega arith)
            ∙ sym (same (start + j) (omega (arith, room, lt, long)))
            ∙ sym (get_or-drop start bytes j 0)
            ∙ sym (get_or-take n rest j 0 (omega (arith, lt, long)))
            ∙ ap (λ ys. at ys j) (sym e);
      },
    )

module _ (b : Builder) where
  -- A packed coordinate is the limbs of its 32 bytes.
  pub pack_coord_limbs-limbs_of :
      (bytes : List ℕ)
      → length bytes ≡ 32
      → All (λ c. c < 256) bytes
      → value (pack_coord_limbs b bytes) ≡ limbs_of bytes
  unfolding pack_coord_limbs limbs_of word_at from_be_bytes
  pack_coord_limbs-limbs_of bytes size small =
      let word : ℕ → ℕ → ℕ = λ n i. word_at bytes (n - (i + 1) * 4) in
      map-range _ (word 32) 8 (λ i lt.
        let s = (8 - 1 - i) * 4 in
        pack_4_bytes_be-be_word b (at bytes s) (at bytes (s + 1)) (at bytes (s + 2))
          (at bytes (s + 3)) (octet_at bytes s small) (octet_at bytes (s + 1) small)
          (octet_at bytes (s + 2) small) (octet_at bytes (s + 3) small)
        ∙ words i s (omega (arith, lt)))
      ∙ ap (λ n. map (word n) (range (n / 4))) (sym size)
    where
      words :
          (i s : ℕ)
          → s ≡ 32 - (i + 1) * 4
          → at bytes s * 16777216
              + at bytes (s + 1) * 65536
              + at bytes (s + 2) * 256
              + at bytes (s + 3)
            ≡ word_at bytes (32 - (i + 1) * 4)
      words i s e = rw (sym e) (omega arith)

  -- The constraints of the extractor, part by part.
  pub record Parts (json_len : ℕ) (t : CnfExtractorTargets) : Type 0 where
    pub bytes : List ℕ
    pub bytes_lem :
        bytes ≡ select_bytes_by_offset b t.substring_bytes_with_padding t.byte_offset_indicator 140
    pub selects :
        Selects b json_len cnf_slice_len_with_padding t.slice_targets t.substring_bytes_with_padding
          (record { indicator = t.byte_offset_indicator; value = t.byte_offset })
    pub prefixed : holds (match_bytes bytes 0 cnf_prefix) ≡ true
    pub separated : holds (match_bytes bytes 87 cnf_xy_separator) ≡ true
    pub closed : holds (match_bytes bytes 137 cnf_closing) ≡ true
    pub x_decoded : holds (make_base64url_decode_circuit b 43 t.x_b64) ≡ true
    pub y_decoded : holds (make_base64url_decode_circuit b 43 t.y_b64) ≡ true
    pub x_same : t.x_b64.input_ascii ≡ take 43 (drop 44 bytes)
    pub y_same : t.y_b64.input_ascii ≡ take 43 (drop 94 bytes)
    pub x_packed : length t.x_b64.decoded_bytes ≡ 32
    pub y_packed : length t.y_b64.decoded_bytes ≡ 32
    pub x_words :
        (value (make_cnf_extractor_circuit b json_len t)).x_limbs
        ≡ value (pack_coord_limbs b t.x_b64.decoded_bytes)
    pub y_words :
        (value (make_cnf_extractor_circuit b json_len t)).y_limbs
        ≡ value (pack_coord_limbs b t.y_b64.decoded_bytes)

  pub circuit-Parts :
      (json_len : ℕ) (t : CnfExtractorTargets)
      → holds (make_cnf_extractor_circuit b json_len t) ≡ true
      → Parts json_len t
  unfolding make_cnf_extractor_circuit unpack_words_to_bytes make_one_hot_indicator
      make_array_slice_circuit_packed_u32 virtual_targets make_base64url_decode_circuit
      pack_coord_limbs
  circuit-Parts json_len t e =
      let (whole, s1) = &&-split _ _ e in
      let (sliced, s2) = &&-split _ _ s1 in
      let (unpacked, s3) = &&-split _ _ s2 in
      let (offset, s4) = &&-split _ _ s3 in
      let (prefixed, s5) = &&-split _ _ s4 in
      let (separated, s6) = &&-split _ _ s5 in
      let (closed, s7) = &&-split _ _ s6 in
      let (x_decoded, s8) = &&-split _ _ s7 in
      let (y_decoded, s9) = &&-split _ _ s8 in
      let (x_same, s10) = &&-split _ _ s9 in
      let (y_same, s11) = &&-split _ _ s10 in
      let (x_packed, s12) = &&-split _ _ s11 in
      let (y_packed, _) = &&-split _ _ s12 in
      record {
        bytes = _;
        bytes_lem = refl;
        selects = record { sliced = sliced; unpacked = unpacked; offset_holds = offset };
        prefixed = prefixed;
        separated = separated;
        closed = closed;
        x_decoded = x_decoded;
        y_decoded = y_decoded;
        x_same = connect_all-eq _ _ x_same;
        y_same = connect_all-eq _ _ y_same;
        x_packed = (==_iff _ 32).0 (&&-split _ _ x_packed).0;
        y_packed = (==_iff _ 32).0 (&&-split _ _ y_packed).0;
        x_words = refl;
        y_words = refl;
      }
