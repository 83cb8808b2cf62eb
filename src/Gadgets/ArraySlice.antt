-- ===== src/Gadgets/ArraySlice.antt =====
-- src/circuits/gadgets/array_slice.rs: a slice of an array at a position that the prover chooses.
pub mod Sound
use dac_from_legacy_credenti.Prelude.{
  ℕ, ◌+◌, ◌-◌, ◌*◌, ◌/◌, ◌%◌, Bool, true, false, ◌&&◌, not, List, [], ◌∷◌, map, at, length, take,
  drop, leb, ltb, ◌==◌, range, if◌then◌else◌,
}
use dac_from_legacy_credenti.Prelude.Outcome.{Result, ok, length_mismatch, out_of_range, ensure}
use dac_from_legacy_credenti.Prelude.Outcome
use dac_from_legacy_credenti.Plonky2.Field.{Builder}
use dac_from_legacy_credenti.Plonky2.Circuit.{
  Circuit, Done, ◌>>=◌, ◌>>◌, pure, assert, connect, for_each, virtual_target, virtual_targets,
}
use dac_from_legacy_credenti.Gadgets.{OneHotTargets, weighted_from, make_one_hot_indicator}
use dac_from_legacy_credenti.Gadgets.Bytes.{be_word}

pub record ArraySliceTargets : Type 0 where
  pub array : List ℕ
  pub start_idx : ℕ
  pub output : List ℕ
  pub indicator : List ℕ

pub record PackedArraySliceTargets : Type 0 where
  pub packed_array : List ℕ
  pub start_idx_bytes : ℕ
  pub output_packed : List ℕ
  pub packed_indicator : List ℕ
  pub start_idx_words : ℕ

module _ (b : Builder) where
  -- `output[j] = sum_i(indicator[i] * array[i + j])`, for each `j`
  unfoldable pub slice_rule : ℕ → List ℕ → List ℕ → List ℕ → Circuit Done
  slice_rule max_slice_len array indicator output =
      for_each (λ j. connect (at output j) (weighted_from b (λ i. at array (i + j)) 0 0 indicator))
        (range max_slice_len)

  -- The value target of the indicator is the start index, which is connected to it.
  unfoldable pub make_array_slice_circuit : ℕ → ℕ → ArraySliceTargets → Circuit ArraySliceTargets
  make_array_slice_circuit max_array_len max_slice_len t = do
    assert (leb max_slice_len max_array_len)
    assert (ltb 0 max_array_len && ltb 0 max_slice_len)
    let valid_starts = max_array_len - max_slice_len + 1
    array ← virtual_targets b max_array_len t.array
    start_idx ← virtual_target b t.start_idx
    output ← virtual_targets b max_slice_len t.output
    let one_hot : OneHotTargets = record { indicator = t.indicator; value = t.start_idx }
    make_one_hot_indicator b valid_starts 0 one_hot
    connect one_hot.value start_idx
    slice_rule max_slice_len array one_hot.indicator output
    pure t

  unfoldable pub make_array_slice_circuit_packed_u32 :
      ℕ → ℕ → PackedArraySliceTargets → Circuit PackedArraySliceTargets
  make_array_slice_circuit_packed_u32 max_array_len_bytes max_slice_len_bytes t = do
    assert (max_array_len_bytes % 4 == 0)
    assert (max_slice_len_bytes % 4 == 0)
    assert (leb max_slice_len_bytes max_array_len_bytes)
    assert (ltb 0 max_array_len_bytes && ltb 0 max_slice_len_bytes)
    let max_array_len_words = max_array_len_bytes / 4
    let max_slice_len_words = max_slice_len_bytes / 4
    let valid_starts_words = max_array_len_words - max_slice_len_words + 1
    packed_array ← virtual_targets b max_array_len_words t.packed_array
    start_idx_bytes ← virtual_target b t.start_idx_bytes
    start_idx_words ← virtual_target b t.start_idx_words
    connect start_idx_bytes (b.mul start_idx_words 4)
    output ← virtual_targets b max_slice_len_words t.output_packed
    let one_hot : OneHotTargets = record {
      indicator = t.packed_indicator;
      value = t.start_idx_words;
    }
    make_one_hot_indicator b valid_starts_words 0 one_hot
    connect one_hot.value start_idx_words
    slice_rule max_slice_len_words packed_array one_hot.indicator output
    pure t

-- `if i == start { F::ONE } else { F::ZERO }`, for each index
unfoldable pub one_hot_at : ℕ → ℕ → List ℕ
one_hot_at size start = map (λ i. if i == start then 1 else 0) (range size)

-- The assignment that the prover writes, for targets of the given lengths.
unfoldable pub fill_array_slice_witness : ℕ → ℕ → List ℕ → ℕ → Result ArraySliceTargets
fill_array_slice_witness max_array_len max_slice_len array start =
    let valid_starts = max_array_len - max_slice_len + 1 in
    Outcome.◌>>◌ (ensure (length array == max_array_len) length_mismatch) (
      Outcome.◌>>◌ (ensure (not (leb valid_starts start)) out_of_range) (
        ok (record {
          array = array;
          start_idx = start;
          output = map (λ j. at array (start + j)) (range max_slice_len);
          indicator = one_hot_at valid_starts start;
        })))

-- The word of four bytes from `byte_start` on.
unfoldable pub word_from : List ℕ → ℕ → ℕ
word_from bytes i = be_word (at bytes i) (at bytes (i + 1)) (at bytes (i + 2)) (at bytes (i + 3))

unfoldable pub fill_array_slice_witness_packed_u32 :
    ℕ → ℕ → List ℕ → ℕ → Result PackedArraySliceTargets
fill_array_slice_witness_packed_u32 max_array_len_words max_slice_len_words bytes start_bytes =
    let start_bytes_aligned = start_bytes / 4 * 4 in
    let start_words = start_bytes_aligned / 4 in
    let valid_starts_words = max_array_len_words - max_slice_len_words + 1 in
    Outcome.◌>>◌ (ensure (length bytes == max_array_len_words * 4) length_mismatch) (
      Outcome.◌>>◌ (ensure (not (leb valid_starts_words start_words)) out_of_range) (
        ok (record {
          packed_array =
              map (λ word_idx. word_from bytes (word_idx * 4)) (range max_array_len_words);
          start_idx_bytes = start_bytes_aligned;
          output_packed =
              map (λ j. word_from bytes ((start_words + j) * 4)) (range max_slice_len_words);
          packed_indicator = one_hot_at valid_starts_words start_words;
          start_idx_words = start_words;
        })))
