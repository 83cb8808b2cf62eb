-- ===== src/Gadgets.antt =====
-- src/circuits/gadgets/mod.rs: the sub-circuits that the parsers share, read at an assignment of
-- their targets.
pub mod OneHot
pub mod Bytes
pub mod Bits
pub mod ScalarConversion
pub mod Sha256Variable
pub mod ArraySlice
pub mod Substring
pub mod Base64
pub mod JsonParse
pub mod CnfParse
mod Tests
use dac_from_legacy_credenti.Prelude.{
  at, ℕ, suc, ◌+◌, ◌*◌, ◌^◌, Bool, true, false, List, [], ◌∷◌, map, length, ltb, range,
}
use dac_from_legacy_credenti.Plonky2.Field.{Builder}
use dac_from_legacy_credenti.Plonky2.Circuit.{
  Circuit, Done, ◌>>=◌, ◌>>◌, pure, assert, connect, for_each, virtual_target, virtual_targets,
  range_checked,
}

pub record OneHotTargets : Type 0 where
  pub indicator : List ℕ
  pub value : ℕ

module _ (b : Builder) where
  -- `for &ind in &indicator { sum = builder.add(sum, ind) }`
  unfoldable pub sum_from : ℕ → List ℕ → ℕ
  sum_from sum [] = sum
  sum_from sum (ind ∷ rest) = sum_from (b.add sum ind) rest

  -- `for (i, &ind) in indicator.iter().enumerate()`: the sum of `ind * term(i)`, from index `i` on.
  unfoldable pub weighted_from : (ℕ → ℕ) → ℕ → ℕ → List ℕ → ℕ
  weighted_from term sum i [] = sum
  weighted_from term sum i (ind ∷ rest) =
      weighted_from term (b.add sum (b.mul ind (term i))) (suc i) rest

  unfoldable pub make_one_hot_indicator : ℕ → ℕ → OneHotTargets → Circuit OneHotTargets
  make_one_hot_indicator size offset t = do
    assert (ltb 0 size)
    indicator ← virtual_targets b size t.indicator
    for_each (λ ind. connect ind (b.mul ind ind)) indicator
    connect (sum_from 0 indicator) 1
    value ← virtual_target b t.value
    connect (weighted_from (λ i. i + offset) 0 0 indicator) value
    pure t

  -- `builder.mul_add(x, y, z)`
  abbrev pub mul_add : ℕ → ℕ → ℕ → ℕ
  mul_add x y z = b.add (b.mul x y) z

  -- `pack_4_bytes_be` of src/circuits/gadgets/json_parse.rs, with its three constants.
  pub pack_4_bytes_be : ℕ → ℕ → ℕ → ℕ → ℕ
  pack_4_bytes_be b0 b1 b2 b3 = mul_add b0 (2 ^ 24) (mul_add b1 (2 ^ 16) (mul_add b2 (2 ^ 8) b3))

  pub unpack_words_to_bytes : List ℕ → List ℕ → Circuit (List ℕ)
  unpack_words_to_bytes words targets = do
    bytes ← virtual_targets b (length words * 4) targets
    for_each
        (λ w. connect (at words w) (
          pack_4_bytes_be (at bytes (w * 4)) (at bytes (w * 4 + 1)) (at bytes (w * 4 + 2))
            (at bytes (w * 4 + 3))))
        (range (length words))
    for_each (λ byte. range_checked b byte 8) bytes
    pure bytes

  pub select_bytes_by_offset : List ℕ → List ℕ → ℕ → List ℕ
  select_bytes_by_offset bytes offset_indicator count =
      map (λ j. weighted_from (λ k. at bytes (k + j)) 0 0 offset_indicator) (range count)
