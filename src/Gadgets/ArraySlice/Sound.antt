-- ===== src/Gadgets/ArraySlice/Sound.antt =====
-- What the slice circuits enforce.
use native.Mathlib.Nat.{mod-eq_of_lt}
use dac_from_legacy_credenti.Prelude.{
  ℕ, ◌+◌, ◌-◌, ◌*◌, ◌/◌, ◌%◌, ◌^◌, ◌≤◌, ◌<◌, ◌≡◌, sym, ap, ◌∙◌, true, List, All, All-get_or, at,
  length, ◌==◌, ==_iff, arith,
}
use dac_from_legacy_credenti.Plonky2.Field.{Builder}
use dac_from_legacy_credenti.Plonky2.Circuit.{
  holds, for_each-range, virtual_target, virtual_targets, virtual_targets-holds,
}
use dac_from_legacy_credenti.Gadgets.{OneHotTargets, weighted_from, make_one_hot_indicator}
use dac_from_legacy_credenti.Gadgets.OneHot.{
  IsOneHot, make_one_hot_indicator-IsOneHot, weighted_from-first,
}
use dac_from_legacy_credenti.Gadgets.ArraySlice.{
  ArraySliceTargets, PackedArraySliceTargets, slice_rule, make_array_slice_circuit,
  make_array_slice_circuit_packed_u32,
}

add_zero : (k : ℕ) → k + 0 ≡ k
add_zero k = omega arith

module _ (b : Builder) where
  open b use {order}

  -- Under a one-hot indicator the output is the array from the index on.
  slice_rule-IsOneHot :
      (n k : ℕ) (array indicator output : List ℕ)
      → IsOneHot indicator k
      → All (λ v. v < order) array
      → holds (slice_rule b n array indicator output) ≡ true
      → (j : ℕ) → j < n
      → at output j ≡ at array (k + j)
  unfolding slice_rule
  slice_rule-IsOneHot n k array indicator output hot small e j lt =
      let term : ℕ → ℕ = λ i. at array (i + j) in
      (==_iff (at output j) (weighted_from b term 0 0 indicator)).0 (for_each-range _ n j e lt)
      ∙ weighted_from-first b term k indicator hot
          (All-get_or (λ v. v < order) array (k + j) 0 small (omega (arith, b.u32_lt_order)))

  -- An assignment that satisfies the slice circuit, over an array shorter than the field's order,
  -- outputs the array's elements from the start index on, and the slice lies within the array.
  pub make_array_slice_circuit-slices :
      (max_array_len max_slice_len : ℕ) (t : ArraySliceTargets)
      → max_array_len < order
      → holds (make_array_slice_circuit b max_array_len max_slice_len t) ≡ true
      → (length t.array ≡ max_array_len)
        × (t.start_idx + max_slice_len ≤ max_array_len)
        × ((j : ℕ) → j < max_slice_len → at t.output j ≡ at t.array (t.start_idx + j))
  unfolding make_array_slice_circuit virtual_target virtual_targets
  make_array_slice_circuit-slices max n t lt e =
      let starts = max - n + 1 in
      let one_hot : OneHotTargets = record { indicator = t.indicator; value = t.start_idx } in
      let fits : n ≤ max = ground arith in
      let some : 0 < n = ground arith in
      let shape : holds (virtual_targets b max t.array) ≡ true = ground arith in
      let hot : holds (make_one_hot_indicator b starts 0 one_hot) ≡ true = ground arith in
      let sliced : holds (slice_rule b n t.array t.indicator t.output) ≡ true = ground arith in
      let (count, small) = virtual_targets-holds b max t.array shape in
      let (k, is_hot, within, start) =
        make_one_hot_indicator-IsOneHot b starts 0 one_hot (omega arith) hot in
      (
        count,
        omega (arith, within, start),
        λ j less.
            slice_rule-IsOneHot n k t.array t.indicator t.output is_hot small sliced j less
            ∙ ap (λ i. at t.array i) (omega (arith, start)),
      )

  -- The constraints of the packed circuit, part by part.
  record PackedParts (max n : ℕ) (t : PackedArraySliceTargets) : Type 0 where
    whole : max % 4 ≡ 0
    slice_whole : n % 4 ≡ 0
    fits : n ≤ max
    shape : holds (virtual_targets b (max / 4) t.packed_array) ≡ true
    bytes : (t.start_idx_bytes == b.mul t.start_idx_words 4) ≡ true
    hot :
        holds (
          make_one_hot_indicator b
            (max / 4 - n / 4 + 1)
            0
            (record { indicator = t.packed_indicator; value = t.start_idx_words }))
        ≡ true
    sliced : holds (slice_rule b (n / 4) t.packed_array t.packed_indicator t.output_packed) ≡ true

  packed-PackedParts :
      (max n : ℕ) (t : PackedArraySliceTargets)
      → holds (make_array_slice_circuit_packed_u32 b max n t) ≡ true
      → PackedParts max n t
  unfolding make_array_slice_circuit_packed_u32 virtual_target virtual_targets
  packed-PackedParts max n t e = record {
    whole = ground arith;
    slice_whole = ground arith;
    fits = ground arith;
    shape = ground arith;
    bytes = ground arith;
    hot = ground arith;
    sliced = ground arith;
  }

  PackedParts-slices :
      (max n k : ℕ) (t : PackedArraySliceTargets)
      → max < 2 ^ 32
      → PackedParts max n t
      → IsOneHot t.packed_indicator k
      → k < max / 4 - n / 4 + 1
      → t.start_idx_words ≡ k + 0
      → (t.start_idx_bytes ≡ t.start_idx_words * 4)
        × (t.start_idx_bytes + n ≤ max)
        × ((j : ℕ) → j < n / 4 → at t.output_packed j ≡ at t.packed_array (t.start_idx_words + j))
  PackedParts-slices max n k t lt parts hot within start =
      let (count, small) = virtual_targets-holds b (max / 4) t.packed_array parts.shape in
      let aligned : t.start_idx_bytes ≡ t.start_idx_words * 4 =
        (==_iff t.start_idx_bytes (b.mul t.start_idx_words 4)).0 parts.bytes
        ∙ b.mul_lem t.start_idx_words 4
        ∙ mod-eq_of_lt (omega (arith, b.u32_lt_order)) in
      (
        aligned,
        omega (arith, parts.whole, parts.slice_whole, parts.fits),
        λ j less.
            slice_rule-IsOneHot (n / 4) k t.packed_array t.packed_indicator t.output_packed hot
              small parts.sliced j less
            ∙ ap (λ i. at t.packed_array (i + j)) (sym (start ∙ add_zero k)),
      )

  -- The packed circuit, over an array shorter than 4 GiB: the byte index is a multiple of four,
  -- the slice lies within the array, and the output is the array's words from that index on.
  pub make_array_slice_circuit_packed_u32-slices :
      (max_array_len_bytes max_slice_len_bytes : ℕ) (t : PackedArraySliceTargets)
      → max_array_len_bytes < 2 ^ 32
      → holds (make_array_slice_circuit_packed_u32 b max_array_len_bytes max_slice_len_bytes t)
        ≡ true
      → (t.start_idx_bytes ≡ t.start_idx_words * 4)
        × (t.start_idx_bytes + max_slice_len_bytes ≤ max_array_len_bytes)
        × ((j : ℕ)
            → j < max_slice_len_bytes / 4
            → at t.output_packed j ≡ at t.packed_array (t.start_idx_words + j))
  make_array_slice_circuit_packed_u32-slices max n t lt e =
      let parts = packed-PackedParts max n t e in
      let (k, hot, within, start) =
        make_one_hot_indicator-IsOneHot b (max / 4 - n / 4 + 1) 0
          (record { indicator = t.packed_indicator; value = t.start_idx_words })
          (omega (arith, b.u32_lt_order)) parts.hot in
      PackedParts-slices max n k t lt parts hot within start

  -- The output has the slice's words.
  pub length-output_packed :
      (max n : ℕ) (t : PackedArraySliceTargets)
      → holds (make_array_slice_circuit_packed_u32 b max n t) ≡ true
      → length t.output_packed ≡ n / 4
  unfolding make_array_slice_circuit_packed_u32 virtual_target virtual_targets
  length-output_packed max n t e =
      let shape : holds (virtual_targets b (n / 4) t.output_packed) ≡ true = ground arith in
      (virtual_targets-holds b (n / 4) t.output_packed shape).0
