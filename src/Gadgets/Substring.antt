-- ===== src/Gadgets/Substring.antt =====
-- A substring that is selected from a packed payload, from a byte on that the prover chooses, as
-- the claim circuit and the CNF extractor do it.
use dac_from_legacy_credenti.Prelude.{
  true, ◌^◌, ℕ, ◌+◌, ◌*◌, ◌/◌, ◌%◌, ◌≤◌, ◌<◌, ◌≡◌, sym, ap, ◌∙◌, List, All, All-get_or, at, length,
  length-map, length-range, range, arith,
}
use dac_from_legacy_credenti.Prelude.Index.{get_or-map-range}
use dac_from_legacy_credenti.Plonky2.Field.{Builder}
use dac_from_legacy_credenti.Plonky2.Circuit.{holds}
use dac_from_legacy_credenti.Gadgets.{
  OneHotTargets, make_one_hot_indicator, unpack_words_to_bytes, weighted_from,
  select_bytes_by_offset,
}
use dac_from_legacy_credenti.Gadgets.OneHot.{
  IsOneHot, make_one_hot_indicator-IsOneHot, weighted_from-first,
}
use dac_from_legacy_credenti.Gadgets.Bytes.{be_word, unpack_words_to_bytes-be_word}
use dac_from_legacy_credenti.Gadgets.ArraySlice.{
  PackedArraySliceTargets, make_array_slice_circuit_packed_u32, word_from,
}
use dac_from_legacy_credenti.Gadgets.ArraySlice.Sound.{
  make_array_slice_circuit_packed_u32-slices, length-output_packed,
}

-- The words are those of the byte string, big-endian.
pub record IsPacked (json words : List ℕ) : Type 0 where
  pub octets : All (λ x. x < 256) json
  pub packed : (w : ℕ) → w * 4 < length json → at words w ≡ word_from json (w * 4)

pub octet_at : (bytes : List ℕ) (i : ℕ) → All (λ x. x < 256) bytes → at bytes i < 256
octet_at bytes i h = All-get_or (λ x. x < 256) bytes i 0 h (omega arith)

be_word-injective :
    (a c d e a' c' d' e' : ℕ)
    → (a < 256) × (c < 256) × (d < 256) × (e < 256)
    → (a' < 256) × (c' < 256) × (d' < 256) × (e' < 256)
    → be_word a c d e ≡ be_word a' c' d' e'
    → (a ≡ a') × (c ≡ c') × (d ≡ d') × (e ≡ e')
be_word-injective a c d e a' c' d' e' h h' same = omega arith

-- Two byte strings with one word at `i` and `j` have the same four bytes there.
word_from-injective :
    (xs ys : List ℕ) (i j : ℕ)
    → All (λ x. x < 256) xs
    → All (λ x. x < 256) ys
    → word_from xs i ≡ word_from ys j
    → (r : ℕ) → r < 4
    → at xs (i + r) ≡ at ys (j + r)
unfolding word_from
word_from-injective xs ys i j hx hy same r lt =
    let four =
      be_word-injective (at xs i) (at xs (i + 1)) (at xs (i + 2)) (at xs (i + 3)) (at ys j)
        (at ys (j + 1)) (at ys (j + 2)) (at ys (j + 3))
        (octet_at xs i hx, octet_at xs (i + 1) hx, octet_at xs (i + 2) hx, octet_at xs (i + 3) hx)
        (octet_at ys j hy, octet_at ys (j + 1) hy, octet_at ys (j + 2) hy, octet_at ys (j + 3) hy)
        same in
    byte_of four r lt
  where
    byte_of :
        (at xs i ≡ at ys j)
          × (at xs (i + 1) ≡ at ys (j + 1))
          × (at xs (i + 2) ≡ at ys (j + 2))
          × (at xs (i + 3) ≡ at ys (j + 3))
        → (r : ℕ) → r < 4
        → at xs (i + r) ≡ at ys (j + r)
    byte_of (e0, e1, e2, e3) r lt = ground arith

-- Bytes whose words are a slice of the packed payload are a slice of the payload.
pub unpacked-eq_json :
    (json words out bytes : List ℕ) (start n : ℕ)
    → IsPacked json words
    → All (λ x. x < 256) bytes
    → ((w : ℕ) → w < n → at out w ≡ word_from bytes (w * 4))
    → ((w : ℕ) → w < n → at out w ≡ at words (start + w))
    → (start + n) * 4 ≤ length json
    → (i : ℕ) → i < n * 4
    → at bytes i ≡ at json (start * 4 + i)
unpacked-eq_json json words out bytes start n packing small own sliced fits i lt =
    let w = i / 4 in
    let same =
      sym (own w (omega arith))
      ∙ sliced w (omega arith)
      ∙ packing.packed (start + w) (omega arith) in
    ap (at bytes) {x = i} {y = w * 4 + i % 4} (omega arith)
    ∙ word_from-injective bytes json (w * 4) ((start + w) * 4) small packing.octets same (i % 4)
        (omega arith)
    ∙ ap (at json) {x = (start + w) * 4 + i % 4} {y = start * 4 + i} (omega arith)

pub length-select :
    (b : Builder) (bytes indicator : List ℕ) (count : ℕ)
    → length (select_bytes_by_offset b bytes indicator count) ≡ count
unfolding select_bytes_by_offset
length-select b bytes indicator count = length-map _ (range count) ∙ length-range count

-- Selection under a one-hot offset is a shift.
pub select_bytes_by_offset-IsOneHot :
    (b : Builder) (bytes indicator : List ℕ) (k count j : ℕ)
    → All (λ x. x < 256) bytes
    → IsOneHot indicator k
    → j < count
    → at (select_bytes_by_offset b bytes indicator count) j ≡ at bytes (k + j)
unfolding select_bytes_by_offset
select_bytes_by_offset-IsOneHot b bytes indicator k count j small hot lt =
    let term : ℕ → ℕ → ℕ = λ j i. at bytes (i + j) in
    get_or-map-range (λ j. weighted_from b (term j) 0 0 indicator) count j 0 lt
    ∙ weighted_from-first b (term j) k indicator hot
        (omega (arith, octet_at bytes (k + j) small, b.u32_lt_order))

-- The circuits that lead to a selection: the slice, its bytes, and the offset within a word.
pub record Selects (b : Builder) (json_len slice_len : ℕ) (s : PackedArraySliceTargets)
    (padded_bytes : List ℕ) (offset : OneHotTargets) : Type 0 where
  pub sliced : holds (make_array_slice_circuit_packed_u32 b json_len slice_len s) ≡ true
  pub unpacked : holds (unpack_words_to_bytes b s.output_packed padded_bytes) ≡ true
  pub offset_holds : holds (make_one_hot_indicator b 4 0 offset) ≡ true

-- The selected bytes are the payload's, from the chosen byte on.
pub select_bytes_by_offset-eq_json :
    (b : Builder) (json : List ℕ) (slice_len count : ℕ) (s : PackedArraySliceTargets)
    (padded_bytes : List ℕ) (offset : OneHotTargets)
    → length json < 2 ^ 32
    → slice_len % 4 ≡ 0
    → count + 4 ≤ slice_len
    → IsPacked json s.packed_array
    → Selects b (length json) slice_len s padded_bytes offset
    → (s.start_idx_bytes + offset.value + count ≤ length json)
      × ((j : ℕ)
          → j < count
          → at (select_bytes_by_offset b padded_bytes offset.indicator count) j
            ≡ at json (s.start_idx_bytes + offset.value + j))
unfolding word_from
select_bytes_by_offset-eq_json b json slice_len count s padded_bytes offset small whole room packing
      parts =
    let n = slice_len / 4 in
    let (aligned, fits, sliced) =
      make_array_slice_circuit_packed_u32-slices b (length json) slice_len s small parts.sliced in
    let (_, octets, own) =
      unpack_words_to_bytes-be_word b s.output_packed padded_bytes parts.unpacked in
    let words : length s.output_packed ≡ n =
      length-output_packed b (length json) slice_len s parts.sliced in
    let (k, hot, within, chosen) =
      make_one_hot_indicator-IsOneHot b 4 0 offset (omega (arith, b.u32_lt_order))
        parts.offset_holds in
    let here : (i : ℕ) → i < n * 4 → at padded_bytes i ≡ at json (s.start_idx_words * 4 + i) =
      unpacked-eq_json json s.packed_array s.output_packed padded_bytes s.start_idx_words n packing
        octets (λ w lt. own w (omega (arith, lt, words))) (λ w lt. sliced w lt)
        (omega (arith, fits, aligned, whole)) in
    (
      omega (arith, fits, chosen, within, room),
      λ j lt.
          select_bytes_by_offset-IsOneHot b padded_bytes offset.indicator k count j octets hot lt
          ∙ here (k + j) (omega (arith, lt, within, whole, room))
          ∙ ap (at json) (omega (arith, aligned, chosen)),
    )
