-- ===== src/Gadgets/Bytes.antt =====
-- The bytes of a word: what `unpack_words_to_bytes` enforces.
use native.Mathlib.Nat.{mod-eq_of_lt}
use dac_from_legacy_credenti.Prelude.{
  ℕ, ◌+◌, ◌*◌, ◌%◌, ◌<◌, ◌≡◌, ap, ◌∙◌, true, List, All, All-map, All-get_or, at, length, range,
  ==_iff, arith,
}
use dac_from_legacy_credenti.Plonky2.Field.{Builder}
use dac_from_legacy_credenti.Plonky2.Circuit.{
  holds, connect, for_each, for_each-All, for_each-range, virtual_targets, virtual_targets-holds,
  range_checked,
}
use dac_from_legacy_credenti.Gadgets.{pack_4_bytes_be, mul_add, unpack_words_to_bytes}

-- `u32::be_word`
abbrev pub be_word : ℕ → ℕ → ℕ → ℕ → ℕ
be_word b0 b1 b2 b3 = b0 * 16777216 + b1 * 65536 + b2 * 256 + b3

module _ (b : Builder) where
  open b use {order}

  pub mul_add-exact : (x y z : ℕ) → x * y + z < order → mul_add b x y z ≡ x * y + z
  mul_add-exact x y z lt =
      b.add_lem (b.mul x y) z
      ∙ ap (λ p. (p + z) % order) (b.mul_lem x y ∙ mod-eq_of_lt (omega arith))
      ∙ mod-eq_of_lt lt

  -- Four bytes pack without a wrap-around.
  pub pack_4_bytes_be-be_word :
      (b0 b1 b2 b3 : ℕ)
      → b0 < 256
      → b1 < 256
      → b2 < 256
      → b3 < 256
      → pack_4_bytes_be b b0 b1 b2 b3 ≡ be_word b0 b1 b2 b3
  unfolding pack_4_bytes_be
  pack_4_bytes_be-be_word b0 b1 b2 b3 h0 h1 h2 h3 =
      let big = b.u32_lt_order in
      let low = mul_add-exact b2 256 b3 (omega arith) in
      let mid =
        ap (mul_add b b1 65536) low ∙ mul_add-exact b1 65536 (b2 * 256 + b3) (omega arith) in
      ap (mul_add b b0 16777216) mid
      ∙ mul_add-exact b0 16777216 (b1 * 65536 + (b2 * 256 + b3)) (omega arith)
      ∙ omega arith

  -- An assignment that satisfies the unpacking circuit gives each word as the big-endian number
  -- of its own four targets, each of which is a byte.
  pub unpack_words_to_bytes-be_word :
      (words bytes : List ℕ)
      → holds (unpack_words_to_bytes b words bytes) ≡ true
      → (length bytes ≡ length words * 4)
        × All (λ x. x < 256) bytes
        × ((w : ℕ)
            → w < length words
            → at words w
              ≡ be_word
                  (at bytes (w * 4))
                  (at bytes (w * 4 + 1))
                  (at bytes (w * 4 + 2))
                  (at bytes (w * 4 + 3)))
  unfolding unpack_words_to_bytes virtual_targets range_checked
  unpack_words_to_bytes-be_word words bytes e =
      let n = length words in
      let pack : ℕ → ℕ = λ w.
        pack_4_bytes_be b (at bytes (w * 4)) (at bytes (w * 4 + 1)) (at bytes (w * 4 + 2))
          (at bytes (w * 4 + 3)) in
      let shape : holds (virtual_targets b (n * 4) bytes) ≡ true = ground arith in
      let packed : holds (for_each (λ w. connect (at words w) (pack w)) (range n)) ≡ true =
        ground arith in
      let checked : holds (for_each (λ x. range_checked b x 8) bytes) ≡ true = ground arith in
      let small : All (λ x. x < 256) bytes =
        All-map (λ x. holds (range_checked b x 8) ≡ true) (λ x. x < 256) bytes
          (λ x h. (b.range_check_iff x 8).0 h)
          (for_each-All (λ x. range_checked b x 8) bytes checked) in
      let byte : (i : ℕ) → at bytes i < 256 =
        λ i. All-get_or (λ x. x < 256) bytes i 0 small (omega arith) in
      (
        (virtual_targets-holds b (n * 4) bytes shape).0,
        small,
        λ w lt.
            (==_iff (at words w) (pack w)).0
              (for_each-range (λ w. connect (at words w) (pack w)) n w packed lt)
            ∙ pack_4_bytes_be-be_word (at bytes (w * 4)) (at bytes (w * 4 + 1))
                (at bytes (w * 4 + 2)) (at bytes (w * 4 + 3)) (byte (w * 4)) (byte (w * 4 + 1))
                (byte (w * 4 + 2)) (byte (w * 4 + 3)),
      )
