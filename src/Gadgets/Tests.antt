-- ===== src/Gadgets/Tests.antt =====
-- The theorems on the shared sub-circuits, at small inputs.
use dac_from_legacy_credenti.Prelude.{
  ℕ, ◌+◌, ◌*◌, ◌/◌, ◌≤◌, ◌<◌, ◌≡◌, refl, true, List, [], ◌∷◌, All, at, length, arith,
}
use dac_from_legacy_credenti.Plonky2.Circuit.{
  holds, for_each, virtual_target, virtual_targets, are_elements, range_checked,
}
use dac_from_legacy_credenti.Gadgets.{
  OneHotTargets, sum_from, weighted_from, make_one_hot_indicator, pack_4_bytes_be,
  unpack_words_to_bytes,
}
use dac_from_legacy_credenti.Gadgets.OneHot.{IsOneHot, make_one_hot_indicator-IsOneHot}
use dac_from_legacy_credenti.Gadgets.Bytes.{be_word, unpack_words_to_bytes-be_word}
use dac_from_legacy_credenti.Gadgets.ArraySlice.{
  ArraySliceTargets, PackedArraySliceTargets, slice_rule, make_array_slice_circuit,
  make_array_slice_circuit_packed_u32,
}
use dac_from_legacy_credenti.Gadgets.ArraySlice.Sound.{
  make_array_slice_circuit-slices, make_array_slice_circuit_packed_u32-slices,
}
use dac_from_legacy_credenti.Sample.Prime.{sample}

abbrev third_of_four : OneHotTargets
third_of_four = record { indicator = 0 ∷ 0 ∷ 1 ∷ 0 ∷ []; value = 7 }

third_holds : holds (make_one_hot_indicator sample 4 5 third_of_four) ≡ true
unfolding make_one_hot_indicator sum_from weighted_from for_each virtual_target virtual_targets
    are_elements
third_holds = refl

make_one_hot_indicator-IsOneHot_example :
    (k : ℕ) × IsOneHot third_of_four.indicator k × (k < 4) × (7 ≡ k + 5)
make_one_hot_indicator-IsOneHot_example =
    make_one_hot_indicator-IsOneHot sample 4 5 third_of_four (omega arith) third_holds

abbrev two_words : List ℕ
two_words = 16909060 ∷ 255 ∷ []

abbrev eight_bytes : List ℕ
eight_bytes = 1 ∷ 2 ∷ 3 ∷ 4 ∷ 0 ∷ 0 ∷ 0 ∷ 255 ∷ []

unpacked_holds : holds (unpack_words_to_bytes sample two_words eight_bytes) ≡ true
unfolding unpack_words_to_bytes pack_4_bytes_be for_each virtual_targets are_elements range_checked
unpacked_holds = refl

unpack_words_to_bytes-be_word_example :
    (length eight_bytes ≡ length two_words * 4)
    × All (λ x. x < 256) eight_bytes
    × ((w : ℕ)
        → w < length two_words
        → at two_words w
          ≡ be_word
              (at eight_bytes (w * 4))
              (at eight_bytes (w * 4 + 1))
              (at eight_bytes (w * 4 + 2))
              (at eight_bytes (w * 4 + 3)))
unpack_words_to_bytes-be_word_example =
    unpack_words_to_bytes-be_word sample two_words eight_bytes unpacked_holds

abbrev middle : ArraySliceTargets
middle = record {
  array = 9 ∷ 8 ∷ 7 ∷ 6 ∷ 5 ∷ [];
  start_idx = 2;
  output = 7 ∷ 6 ∷ [];
  indicator = 0 ∷ 0 ∷ 1 ∷ 0 ∷ [];
}

middle-holds : holds (make_array_slice_circuit sample 5 2 middle) ≡ true
unfolding make_array_slice_circuit slice_rule make_one_hot_indicator sum_from weighted_from for_each
    virtual_target virtual_targets are_elements
middle-holds = refl

make_array_slice_circuit-slices_example :
    (length middle.array ≡ 5)
    × (2 + 2 ≤ 5)
    × ((j : ℕ) → j < 2 → at middle.output j ≡ at middle.array (2 + j))
make_array_slice_circuit-slices_example =
    make_array_slice_circuit-slices sample 5 2 middle (omega arith) middle-holds

abbrev packed : PackedArraySliceTargets
packed = record {
  packed_array = 90 ∷ 80 ∷ 70 ∷ [];
  start_idx_bytes = 4;
  output_packed = 80 ∷ 70 ∷ [];
  packed_indicator = 0 ∷ 1 ∷ [];
  start_idx_words = 1;
}

packed-holds : holds (make_array_slice_circuit_packed_u32 sample 12 8 packed) ≡ true
unfolding make_array_slice_circuit_packed_u32 slice_rule make_one_hot_indicator sum_from
    weighted_from for_each virtual_target virtual_targets are_elements
packed-holds = refl

make_array_slice_circuit_packed_u32-slices_example :
    (4 ≡ 1 * 4)
    × (4 + 8 ≤ 12)
    × ((j : ℕ) → j < 8 / 4 → at packed.output_packed j ≡ at packed.packed_array (1 + j))
make_array_slice_circuit_packed_u32-slices_example =
    make_array_slice_circuit_packed_u32-slices sample 12 8 packed (omega arith) packed-holds
