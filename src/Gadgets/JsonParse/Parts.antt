-- ===== src/Gadgets/JsonParse/Parts.antt =====
-- The constraints of the claim circuit, part by part.
use dac_from_legacy_credenti.Prelude.{
  ℕ, ◌+◌, ◌%◌, ◌≤◌, ◌<◌, ◌≡◌, refl, ◌⊎◌, inl, inr, true, List, ◌++◌, map, at, length, range, ==_iff,
  &&-split, leb→le, arith,
}
use dac_from_legacy_credenti.Plonky2.Field.{Builder}
use dac_from_legacy_credenti.Plonky2.Circuit.{
  holds, value, connect, for_each, for_each-range, virtual_targets,
}
use dac_from_legacy_credenti.Gadgets.{
  make_one_hot_indicator, unpack_words_to_bytes, select_bytes_by_offset,
}
use dac_from_legacy_credenti.Gadgets.ArraySlice.{make_array_slice_circuit_packed_u32}
use dac_from_legacy_credenti.Gadgets.JsonParse.{
  quote, colon, left_brace, comma, JsonClaimTargetsKnownKey, per_claim_substring_len,
  structure_rule, char_at_close_from, prefix_sum_from_right, value_byte, quote_rule, key_bytes,
  pack_attribute, make_json_claim_circuit_known_key,
}
use dac_from_legacy_credenti.Gadgets.JsonParse.Value.{sub-eq_zero}

module _ (b : Builder) where
  open b use {order}

  -- The structure of the substring: delimiter, key in quotes, colon, quote.
  pub record IsStructured (key bytes : List ℕ) : Type 0 where
    pub delimiter : (at bytes 0 ≡ left_brace) ⊎ (at bytes 0 ≡ comma)
    pub key_opens : at bytes 1 ≡ quote
    pub key_stands : (j : ℕ) → j < length key → at bytes (2 + j) ≡ at key j
    pub key_closes : at bytes (2 + length key) ≡ quote
    pub colon_stands : at bytes (3 + length key) ≡ colon
    pub value_opens : at bytes (4 + length key) ≡ quote

  pub structure_rule-IsStructured :
      (key bytes : List ℕ)
      → at bytes 0 < 256
      → holds (structure_rule b key bytes) ≡ true
      → IsStructured key bytes
  unfolding structure_rule
  structure_rule-IsStructured key bytes small e =
      let big = b.u32_lt_order in
      let c = at bytes 0 in
      let zero_product : b.mul (b.sub c left_brace) (b.sub c comma) ≡ 0 = ground arith in
      let keys : holds (for_each (λ j. connect (at bytes (2 + j)) (at key j)) (range (length key)))
          ≡ true =
        ground arith in
      record {
        delimiter = delimited c small zero_product;
        key_opens = ground arith;
        key_stands = λ j lt.
            (==_iff (at bytes (2 + j)) (at key j)).0
              (for_each-range (λ j. connect (at bytes (2 + j)) (at key j)) (length key) j keys lt);
        key_closes = ground arith;
        colon_stands = ground arith;
        value_opens = ground arith;
      }
    where
      element : (x y : ℕ) → x < order → y < order → b.sub x y < order
      element x y hx hy = rw (b.sub_lem x y hx hy) (omega (arith, hx))

      delimited :
          (c : ℕ)
          → c < 256
          → b.mul (b.sub c left_brace) (b.sub c comma) ≡ 0
          → (c ≡ left_brace) ⊎ (c ≡ comma)
      delimited c small zero_product =
          let big = b.u32_lt_order in
          elim (b.mul_domain (b.sub c left_brace) (b.sub c comma)
            (element c left_brace (omega (arith, big)) (omega (arith, big)))
            (element c comma (omega (arith, big)) (omega (arith, big))) zero_product) [
              | inl brace ↦
                  inl (sub-eq_zero b c left_brace (omega (arith, big)) (omega (arith, big)) brace)
              | inr sep ↦ inr (sub-eq_zero b c comma (omega (arith, big)) (omega (arith, big)) sep)
            ]

  -- The constraints of the claim circuit, part by part.
  pub record Parts (json_len : ℕ) (key : List ℕ) (max_value_len max_key_len : ℕ)
      (t : JsonClaimTargetsKnownKey) : Type 0 where
    pub limit : ℕ
    pub limit_lem : limit ≡ per_claim_substring_len (length key) max_value_len
    pub bytes : List ℕ
    pub bytes_lem :
        bytes
        ≡ select_bytes_by_offset b t.substring_bytes_with_padding t.byte_offset_indicator limit
    pub key_fits : length key ≤ max_key_len
    pub whole_value : max_value_len % 4 ≡ 0
    pub whole_key : max_key_len % 4 ≡ 0
    pub sliced :
        holds (make_array_slice_circuit_packed_u32 b json_len (limit + 4) t.slice_targets) ≡ true
    pub unpacked :
        holds (unpack_words_to_bytes b t.slice_targets.output_packed t.substring_bytes_with_padding)
        ≡ true
    pub offset :
        holds (
          make_one_hot_indicator b 4 0
            (record { indicator = t.byte_offset_indicator; value = t.byte_offset }))
        ≡ true
    pub structured : holds (structure_rule b key bytes) ≡ true
    pub counted :
        holds (
          make_one_hot_indicator b max_value_len 1
            (record { indicator = t.value_len_indicator; value = t.value_len }))
        ≡ true
    pub closed : char_at_close_from b limit (5 + length key) bytes 0 0 t.value_len_indicator ≡ quote
    pub quoted :
        holds (
          for_each
            (quote_rule b limit
              (5 + length key)
              bytes
              (prefix_sum_from_right b t.value_len_indicator)
              t.value_quote_inv)
            (range max_value_len))
        ≡ true
    pub words :
        (value (
          make_json_claim_circuit_known_key b json_len key max_value_len max_key_len
            t)).attribute_u32_words
        ≡ pack_attribute b (max_key_len + max_value_len) (
            key_bytes max_key_len key
            ++ map
                (value_byte b limit
                  (5 + length key)
                  bytes
                  (prefix_sum_from_right b t.value_len_indicator))
                (range max_value_len))

  pub circuit-Parts :
      (json_len : ℕ) (key : List ℕ) (max_value_len max_key_len : ℕ) (t : JsonClaimTargetsKnownKey)
      → holds (make_json_claim_circuit_known_key b json_len key max_value_len max_key_len t) ≡ true
      → Parts json_len key max_value_len max_key_len t
  unfolding make_json_claim_circuit_known_key unpack_words_to_bytes make_one_hot_indicator
      make_array_slice_circuit_packed_u32 virtual_targets
  circuit-Parts json_len key max_value_len max_key_len t e =
      let (some_key, s1) = &&-split _ _ e in
      let (key_fits, s2) = &&-split _ _ s1 in
      let (whole, s3) = &&-split _ _ s2 in
      let (whole_value, s4) = &&-split _ _ s3 in
      let (whole_key, s5) = &&-split _ _ s4 in
      let (sliced, s6) = &&-split _ _ s5 in
      let (unpacked, s7) = &&-split _ _ s6 in
      let (offset, s8) = &&-split _ _ s7 in
      let (structured, s9) = &&-split _ _ s8 in
      let (counted, s10) = &&-split _ _ s9 in
      let (closed, s11) = &&-split _ _ s10 in
      let (inverses, s12) = &&-split _ _ s11 in
      let (quoted, _) = &&-split _ _ s12 in
      record {
        limit = per_claim_substring_len (length key) max_value_len;
        limit_lem = refl;
        bytes = _;
        bytes_lem = refl;
        key_fits = leb→le (length key) max_key_len key_fits;
        whole_value = (==_iff (max_value_len % 4) 0).0 whole_value;
        whole_key = (==_iff (max_key_len % 4) 0).0 whole_key;
        sliced = sliced;
        unpacked = unpacked;
        offset = offset;
        structured = structured;
        counted = counted;
        closed = (==_iff _ quote).0 closed;
        quoted = quoted;
        words = refl;
      }
