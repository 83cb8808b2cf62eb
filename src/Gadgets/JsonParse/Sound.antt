-- ===== src/Gadgets/JsonParse/Sound.antt =====
-- What the claim circuit enforces.
use dac_from_legacy_credenti.Prelude.{
  ℕ, ◌+◌, ◌^◌, ◌≤◌, ◌<◌, ◌≡◌, ◌≢◌, sym, ap, ap₂, ◌∙◌, true, List, ◌++◌, map, All, at, length,
  length-map, length-range, length-resize, length-append, resize, range, eq_of_get_or, dec_lt,
  arith,
}
use dac_from_legacy_credenti.Prelude.Index.{
  get_or-map-range, get_or-beyond, get_or-resize, All-of_get_or, All-resize, All-join,
}
use dac_from_legacy_credenti.Plonky2.Field.{Builder}
use dac_from_legacy_credenti.Plonky2.Circuit.{holds, value}
use dac_from_legacy_credenti.Credential.Attribute.{limbs_of}
use dac_from_legacy_credenti.Gadgets.JsonParse.{
  quote, JsonClaimTargetsKnownKey, prefix_sum_from_right, value_byte, pack_attribute,
  make_json_claim_circuit_known_key,
}
use dac_from_legacy_credenti.Gadgets.Substring.{IsPacked, octet_at}
use dac_from_legacy_credenti.Gadgets.JsonParse.Claim.{IsClaimAt, claim_bytes}
use dac_from_legacy_credenti.Gadgets.JsonParse.Parts.{
  structure_rule-IsStructured, Parts, circuit-Parts,
}
use dac_from_legacy_credenti.Gadgets.JsonParse.Window.{
  key_bytes-resize, pack_attribute-limbs_of, Window, Parts-Window, ValueParts, Window-ValueParts,
}

-- The `v` bytes of the payload from `start` on.
abbrev value_at : List ℕ → ℕ → ℕ → List ℕ
value_at json start v = map (λ j. at json (start + j)) (range v)

at-value_at :
    (json : List ℕ) (start v j : ℕ) → j < v → at (value_at json start v) j ≡ at json (start + j)
at-value_at json start v j lt = get_or-map-range (λ j. at json (start + j)) v j 0 lt

length-value_at : (json : List ℕ) (start v : ℕ) → length (value_at json start v) ≡ v
length-value_at json start v = length-map _ (range v) ∙ length-range v

module _ (b : Builder) (json key : List ℕ) (max_value_len max_key_len : ℕ)
    (t : JsonClaimTargetsKnownKey) (p : Parts b (length json) key max_value_len max_key_len t)
    (w : Window b json key max_value_len max_key_len t p) (v : ℕ)
    (parts : ValueParts b json key max_value_len max_key_len t p v) where
  abbrev position : ℕ
  position = t.slice_targets.start_idx_bytes + t.byte_offset

  abbrev claimed : List ℕ
  claimed = value_at json (position + (5 + length key)) (v + 1)

  -- A byte of the payload is that of the substring.
  payload : (j : ℕ) → j < max_value_len + 7 + length key → at json (position + j) ≡ at p.bytes j
  payload j lt = sym (w.same j (omega (arith, lt, w.room)))

  claimed_value : (j : ℕ) → j ≤ v → at claimed j ≡ at p.bytes (5 + length key + j)
  claimed_value j le =
      at-value_at json (position + (5 + length key)) (v + 1) j (omega (arith, le))
      ∙ ap (at json) {y = position + (5 + length key + j)} (omega arith)
      ∙ payload (5 + length key + j) (omega (arith, le, parts.within))

  -- The structure and the value of the substring make a claim of the payload.
  claim_found : All (λ x. x < 256) json → IsClaimAt json key claimed position
  claim_found octets =
      let k = length key in
      let s =
        structure_rule-IsStructured b key p.bytes
          (rw (sym (payload 0 (omega arith))) (octet_at json (position + 0) octets)) p.structured in
      let size = length-value_at json (position + (5 + k)) (v + 1) in
      record {
        fits = omega (arith, size, w.fits, w.room, parts.within);
        delimiter =
            rw
              (ap (at json) {x = position} {y = position + 0} (omega arith)
                ∙ payload 0 (omega arith))
              s.delimiter;
        key_opens = payload 1 (omega arith) ∙ s.key_opens;
        key_stands = λ j lt. payload (2 + j) (omega (arith, lt)) ∙ s.key_stands j lt;
        key_closes = payload (2 + k) (omega arith) ∙ s.key_closes;
        colon_stands = payload (3 + k) (omega arith) ∙ s.colon_stands;
        value_opens = payload (4 + k) (omega arith) ∙ s.value_opens;
        value_stands = λ j lt.
            payload (5 + k + j) (omega (arith, lt, size, parts.within))
            ∙ sym (claimed_value j (omega (arith, lt, size)));
        value_closes =
            ap (λ n. at json (position + (5 + k + n))) size
            ∙ payload (5 + k + (v + 1)) (omega (arith, parts.within))
            ∙ parts.closes;
        no_quote =
            All-of_get_or (λ c. c ≢ quote) claimed 0
              (λ i lt.
                rw (claimed_value i (omega (arith, lt, size)))
                  (parts.no_quote i (omega (arith, lt, size))));
      }

  -- The value's bytes of the circuit are those of the claim, padded.
  value_bytes_padded :
      map
        (value_byte b p.limit
          (5 + length key)
          p.bytes
          (prefix_sum_from_right b t.value_len_indicator))
        (range max_value_len)
      ≡ resize max_value_len 0 claimed
  value_bytes_padded =
      let f =
        value_byte b p.limit (5 + length key) p.bytes
          (prefix_sum_from_right b t.value_len_indicator) in
      let size = length-value_at json (position + (5 + length key)) (v + 1) in
      let count = length-map f (range max_value_len) ∙ length-range max_value_len in
      eq_of_get_or (map f (range max_value_len)) (resize max_value_len 0 claimed) 0
        (count ∙ sym (length-resize max_value_len 0 claimed))
        (λ i lt.
          let below : i < max_value_len = omega (arith, lt, count) in
          get_or-map-range f max_value_len i 0 below
          ∙ elim (dec_lt v i) [
            | yes more ↦
                parts.inactive i more below ∙ sym (get_or-beyond claimed i 0 (omega (arith, size)))
            | no other ↦ parts.active i (omega arith) ∙ sym (claimed_value i (omega arith))
          ]
          ∙ sym (get_or-resize max_value_len 0 claimed i below))

  -- The words of the circuit are the limbs of the claim's attribute.
  words-limbs_of :
      All (λ x. x < 256) json
      → All (λ x. x < 256) key
      → (value (
          make_json_claim_circuit_known_key b
            (length json)
            key
            max_value_len
            max_key_len
            t)).attribute_u32_words
        ≡ limbs_of (claim_bytes max_key_len max_value_len key claimed)
  words-limbs_of octets letters =
      let bytes = claim_bytes max_key_len max_value_len key claimed in
      let small : All (λ x. x < 256) claimed =
        All-of_get_or (λ x. x < 256) claimed 0
          (λ i lt.
            rw
              (at-value_at json (position + (5 + length key)) (v + 1) i
                (omega (arith, lt, length-value_at json (position + (5 + length key)) (v + 1))))
              (octet_at json _ octets)) in
      let all_small =
        All-join (λ x. x < 256) (resize max_key_len 0 key) (resize max_value_len 0 claimed)
          (All-resize (λ x. x < 256) max_key_len 0 key (omega arith) letters)
          (All-resize (λ x. x < 256) max_value_len 0 claimed (omega arith) small) in
      let size : length bytes ≡ max_key_len + max_value_len =
        length-append (resize max_key_len 0 key) (resize max_value_len 0 claimed)
        ∙ ap₂ ◌+◌ (length-resize max_key_len 0 key) (length-resize max_value_len 0 claimed) in
      p.words
      ∙ ap₂ (λ n bs. pack_attribute b n bs) (sym size)
          (ap₂ ◌++◌ (key_bytes-resize max_key_len key) value_bytes_padded)
      ∙ pack_attribute-limbs_of b bytes all_small

-- An assignment that satisfies the claim circuit, over words that pack a payload of bytes shorter
-- than 4 GiB, and for a key of bytes: at the position that the prover chose, the payload has `{`
-- or `,` and then the key and a value without quotes, each in quotes, with the colon between. The
-- value is as long as the circuit says, 1 to `max_value_len` bytes, and the words are the limbs of
-- the attribute of the padded key and value.
pub make_json_claim_circuit_known_key-IsClaimAt :
    (b : Builder) (json key : List ℕ) (max_value_len max_key_len : ℕ) (t : JsonClaimTargetsKnownKey)
    → length json < 2 ^ 32
    → All (λ x. x < 256) key
    → IsPacked json t.slice_targets.packed_array
    → holds (make_json_claim_circuit_known_key b (length json) key max_value_len max_key_len t)
      ≡ true
    → (claimed : List ℕ) × (length claimed ≡ t.value_len)
      × (0 < t.value_len)
      × (t.value_len ≤ max_value_len)
      × IsClaimAt json key claimed (t.slice_targets.start_idx_bytes + t.byte_offset)
      × ((value (
            make_json_claim_circuit_known_key b
              (length json)
              key
              max_value_len
              max_key_len
              t)).attribute_u32_words
          ≡ limbs_of (claim_bytes max_key_len max_value_len key claimed))
make_json_claim_circuit_known_key-IsClaimAt b json key max_value_len max_key_len t small letters
      packing e =
    let p = circuit-Parts b (length json) key max_value_len max_key_len t e in
    let w = Parts-Window b json key max_value_len max_key_len t small packing p in
    let (v, parts) =
      Window-ValueParts b json key max_value_len max_key_len t small packing.octets p w in
    let size =
      length-value_at json (t.slice_targets.start_idx_bytes + t.byte_offset + (5 + length key))
        (v + 1) in
    (
      _,
      size ∙ sym parts.counted,
      omega (arith, parts.counted),
      omega (arith, parts.counted, parts.within),
      claim_found b json key max_value_len max_key_len t p w v parts packing.octets,
      words-limbs_of b json key max_value_len max_key_len t p w v parts packing.octets letters,
    )
