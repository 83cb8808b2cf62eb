-- ===== src/Gadgets/JsonParse/Window.antt =====
-- What the parts of the claim circuit enforce: the packing, the substring and the value.
use dac_from_legacy_credenti.Prelude.{
  ℕ, ◌+◌, ◌-◌, ◌*◌, ◌/◌, ◌^◌, ◌≤◌, ◌<◌, ◌≡◌, ◌≢◌, sym, ap, ◌∙◌, List, map, All, at, length,
  length-map, length-range, length-resize, resize, range, map-range, eq_of_get_or, ltb, arith,
  if◌then◌else◌,
}
use dac_from_legacy_credenti.Prelude.Index.{get_or-map-range, get_or-beyond, get_or-resize}
use dac_from_legacy_credenti.Plonky2.Field.{Builder}
use dac_from_legacy_credenti.Plonky2.Circuit.{for_each-range}
use dac_from_legacy_credenti.Credential.Attribute.{limbs_of, word_at, from_be_bytes}
use dac_from_legacy_credenti.Gadgets.OneHot.{
  make_one_hot_indicator-IsOneHot, weighted_from-first, length-indicator,
}
use dac_from_legacy_credenti.Gadgets.Bytes.{pack_4_bytes_be-be_word}
use dac_from_legacy_credenti.Gadgets.JsonParse.{
  quote, JsonClaimTargetsKnownKey, per_claim_substring_len, prefix_sum_from_right, value_byte,
  quote_rule, key_bytes, pack_attribute,
}
use dac_from_legacy_credenti.Gadgets.JsonParse.Value.{
  prefix_sum_from_right-IsOneHot, char_at_close_from-weighted, value_byte-active,
  value_byte-inactive, quote_rule-ne,
}
use dac_from_legacy_credenti.Gadgets.Substring.{IsPacked, octet_at, select_bytes_by_offset-eq_json}
use dac_from_legacy_credenti.Gadgets.JsonParse.Parts.{Parts}

pub key_bytes-resize : (max : ℕ) (key : List ℕ) → key_bytes max key ≡ resize max 0 key
unfolding key_bytes
key_bytes-resize max key =
    let f : ℕ → ℕ = λ j. if ltb j (length key) then at key j else 0 in
    let count = length-map f (range max) ∙ length-range max in
    eq_of_get_or (map f (range max)) (resize max 0 key) 0 (count ∙ sym (length-resize max 0 key))
      (λ i lt.
        let below : i < max = omega (arith, lt, count) in
        get_or-map-range f max i 0 below ∙ pad i ∙ sym (get_or-resize max 0 key i below))
  where
    pad : (i : ℕ) → (if ltb i (length key) then at key i else 0) ≡ at key i
    pad i = ground (arith, get_or-beyond key i 0)

module _ (b : Builder) where
  -- The packed words are the limbs of an attribute of these bytes.
  pub pack_attribute-limbs_of :
      (bytes : List ℕ)
      → All (λ x. x < 256) bytes
      → pack_attribute b (length bytes) bytes ≡ limbs_of bytes
  unfolding pack_attribute limbs_of word_at from_be_bytes
  pack_attribute-limbs_of bytes small = map-range _ _ (length bytes / 4) (λ i lt.
      let s = length bytes - (i + 1) * 4 in
      pack_4_bytes_be-be_word b (at bytes s) (at bytes (s + 1)) (at bytes (s + 2))
        (at bytes (s + 3)) (octet_at bytes s small) (octet_at bytes (s + 1) small)
        (octet_at bytes (s + 2) small) (octet_at bytes (s + 3) small)
      ∙ omega arith)

  -- Where the substring stands in the payload.
  pub record Window (json key : List ℕ) (max_value_len max_key_len : ℕ)
      (t : JsonClaimTargetsKnownKey) (p : Parts b (length json) key max_value_len max_key_len t)
      : Type 0 where
    pub room : length key + max_value_len + 7 ≤ p.limit
    pub fits : t.slice_targets.start_idx_bytes + t.byte_offset + p.limit ≤ length json
    pub same :
        (j : ℕ)
        → j < p.limit
        → at p.bytes j ≡ at json (t.slice_targets.start_idx_bytes + t.byte_offset + j)

  pub Parts-Window :
      (json key : List ℕ) (max_value_len max_key_len : ℕ) (t : JsonClaimTargetsKnownKey)
      → length json < 2 ^ 32
      → IsPacked json t.slice_targets.packed_array
      → (p : Parts b (length json) key max_value_len max_key_len t)
      → Window json key max_value_len max_key_len t p
  unfolding per_claim_substring_len
  Parts-Window json key max_value_len max_key_len t small packing p =
      let (fits, same) =
        select_bytes_by_offset-eq_json b json (p.limit + 4) p.limit t.slice_targets
          t.substring_bytes_with_padding
          (record { indicator = t.byte_offset_indicator; value = t.byte_offset }) small
          (omega (arith, p.limit_lem)) (omega arith) packing
          (record { sliced = p.sliced; unpacked = p.unpacked; offset_holds = p.offset }) in
      record {
        room = omega (arith, p.limit_lem);
        fits = fits;
        same = λ j lt. ap (λ bytes. at bytes j) p.bytes_lem ∙ same j lt;
      }

  -- The value within the substring, for the index of the length's indicator.
  pub record ValueParts (json key : List ℕ) (max_value_len max_key_len : ℕ)
      (t : JsonClaimTargetsKnownKey) (p : Parts b (length json) key max_value_len max_key_len t)
      (v : ℕ) : Type 0 where
    pub counted : t.value_len ≡ v + 1
    pub within : v < max_value_len
    pub closes : at p.bytes (5 + length key + (v + 1)) ≡ quote
    pub no_quote : (j : ℕ) → j ≤ v → at p.bytes (5 + length key + j) ≢ quote
    pub active :
        (j : ℕ)
        → j ≤ v
        → value_byte b p.limit
            (5 + length key)
            p.bytes
            (prefix_sum_from_right b t.value_len_indicator)
            j
          ≡ at p.bytes (5 + length key + j)
    pub inactive :
        (j : ℕ)
        → v < j
        → j < max_value_len
        → value_byte b p.limit
            (5 + length key)
            p.bytes
            (prefix_sum_from_right b t.value_len_indicator)
            j
          ≡ 0

  pub Window-ValueParts :
      (json key : List ℕ) (max_value_len max_key_len : ℕ) (t : JsonClaimTargetsKnownKey)
      → length json < 2 ^ 32
      → All (λ x. x < 256) json
      → (p : Parts b (length json) key max_value_len max_key_len t)
      → Window json key max_value_len max_key_len t p
      → (v : ℕ) × ValueParts json key max_value_len max_key_len t p v
  Window-ValueParts json key max_value_len max_key_len t small octets p w =
      let big = b.u32_lt_order in
      let s = 5 + length key in
      let sums = prefix_sum_from_right b t.value_len_indicator in
      let (v, hot, within, counted) =
        make_one_hot_indicator-IsOneHot b max_value_len 1
          (record { indicator = t.value_len_indicator; value = t.value_len })
          (omega (arith, w.room, w.fits)) p.counted in
      let size =
        length-indicator b max_value_len 1
          (record { indicator = t.value_len_indicator; value = t.value_len }) p.counted in
      let element : (j : ℕ) → j < p.limit → at p.bytes j < b.order =
        λ j lt. rw (w.same j lt) (omega (arith, octet_at json _ octets)) in
      let one : (j : ℕ) → j ≤ v → at sums j ≡ 1 =
        λ j le. (prefix_sum_from_right-IsOneHot b t.value_len_indicator v hot j).0 le in
      (
        v,
        record {
          counted = counted;
          within = within;
          closes =
              sym (
                weighted_from-first b (λ i. at p.bytes (s + (i + 1))) v t.value_len_indicator hot
                  (element (s + (v + 1)) (omega (arith, within, w.room))))
              ∙ sym (
                  char_at_close_from-weighted b p.limit s p.bytes 0 0 t.value_len_indicator
                    (omega (arith, size, w.room)))
              ∙ p.closed;
          no_quote = λ j le.
              quote_rule-ne b p.limit s p.bytes sums t.value_quote_inv j
                (omega (arith, le, within, w.room)) (one j le)
                (for_each-range (quote_rule b p.limit s p.bytes sums t.value_quote_inv)
                  max_value_len j p.quoted (omega (arith, le, within)));
          active = λ j le.
              value_byte-active b p.limit s p.bytes sums j (omega (arith, le, within, w.room))
                (element (s + j) (omega (arith, le, within, w.room))) (one j le);
          inactive = λ j more lt.
              value_byte-inactive b p.limit s p.bytes sums j (omega (arith, lt, w.room))
                ((prefix_sum_from_right-IsOneHot b t.value_len_indicator v hot j).1 more);
        },
      )
