-- ===== src/Gadgets/JsonParse/Value.antt =====
-- The loops over the value of a claim, under a one-hot indicator of its length.
use native.Mathlib.Nat.{mod-eq_of_lt, mod-eq-sub-mod}
use dac_from_legacy_credenti.Prelude.{
  ℕ, zero, suc, ◌+◌, ◌-◌, ◌%◌, ◌≤◌, ◌<◌, ◌≡◌, ◌≢◌, refl, sym, ap, ap₂, ◌∙◌, true, List, [], ◌∷◌,
  All, at, length, lt→ltb, dec_lt, arith,
}
use dac_from_legacy_credenti.Plonky2.Field.{Builder}
use dac_from_legacy_credenti.Plonky2.Circuit.{holds}
use dac_from_legacy_credenti.Gadgets.{weighted_from}
use dac_from_legacy_credenti.Gadgets.OneHot.{IsOneHot}
use dac_from_legacy_credenti.Gadgets.JsonParse.{
  quote, char_at_close_from, prefix_sum_from_right, value_byte, quote_rule,
}

module _ (b : Builder) where
  open b use {order}

  -- A difference of elements is zero only between equals.
  pub sub-eq_zero : (x y : ℕ) → x < order → y < order → b.sub x y ≡ 0 → x ≡ y
  sub-eq_zero x y hx hy e =
      let whole : (x + order - y) % order ≡ 0 = sym (b.sub_lem x y hx hy) ∙ e in
      elim (dec_lt (x + order - y) order) [
        | yes below ↦ absurd (omega (arith, whole, mod-eq_of_lt below))
        | no other ↦ omega (
          arith,
          whole,
          mod-eq-sub-mod {n = x + order - y} {m = order} (omega arith),
          mod-eq_of_lt {n = x + order - y - order} {m = order} (omega arith),
        )
      ]

  pub sub_self : (x : ℕ) → x < order → b.sub x x ≡ 0
  sub_self x h =
      b.sub_lem x x h h
      ∙ mod-eq-sub-mod {n = x + order - x} {m = order} (omega arith)
      ∙ mod-eq_of_lt {n = x + order - x - order} {m = order} (omega (arith, h))
      ∙ omega arith

  pub zero-mul : (x : ℕ) → b.mul 0 x ≡ 0
  zero-mul x =
      b.mul_lem 0 x
      ∙ ap (λ y. y % order) {y = 0} (omega arith)
      ∙ mod-eq_of_lt (omega (arith, b.u32_lt_order))

  mul-zero : (x : ℕ) → b.mul x 0 ≡ 0
  mul-zero x =
      b.mul_lem x 0
      ∙ ap (λ y. y % order) {y = 0} (omega arith)
      ∙ mod-eq_of_lt (omega (arith, b.u32_lt_order))

  mul-one : (x : ℕ) → x < order → b.mul x 1 ≡ x
  mul-one x h = b.mul_lem x 1 ∙ ap (λ y. y % order) {y = x} (omega arith) ∙ mod-eq_of_lt h

  add_small : (x y : ℕ) → x + y < 2 → b.add x y ≡ x + y
  add_small x y h = b.add_lem x y ∙ mod-eq_of_lt (omega (arith, b.u32_lt_order))

  pub sums_of_zeros :
      (xs : List ℕ) → All (λ x. x ≡ 0) xs → (j : ℕ) → at (prefix_sum_from_right b xs) j ≡ 0
  unfolding prefix_sum_from_right
  sums_of_zeros [] h zero = refl
  sums_of_zeros [] h (suc j) = refl
  sums_of_zeros (x ∷ xs) h zero =
      ap₂ b.add (sums_of_zeros xs h.1 0) h.0 ∙ add_small 0 0 (omega arith)
  sums_of_zeros (x ∷ xs) h (suc j) = sums_of_zeros xs h.1 j

  -- The sum from `j` on is 1 up to the index of the indicator, and 0 beyond it.
  pub prefix_sum_from_right-IsOneHot :
      (xs : List ℕ) (k : ℕ)
      → IsOneHot xs k
      → (j : ℕ)
      → (j ≤ k → at (prefix_sum_from_right b xs) j ≡ 1)
        × (k < j → at (prefix_sum_from_right b xs) j ≡ 0)
  unfolding prefix_sum_from_right
  prefix_sum_from_right-IsOneHot [] k h j = absurd h
  prefix_sum_from_right-IsOneHot (x ∷ xs) zero h zero = (
    λ _. ap₂ b.add (sums_of_zeros xs h.1 0) h.0 ∙ add_small 0 1 (omega arith),
    λ lt. absurd (omega (arith, lt)),
  )
  prefix_sum_from_right-IsOneHot (x ∷ xs) zero h (suc j) =
      (λ le. absurd (omega (arith, le)), λ _. sums_of_zeros xs h.1 j)
  prefix_sum_from_right-IsOneHot (x ∷ xs) (suc k) h zero = (
    λ _.
        ap₂ b.add ((prefix_sum_from_right-IsOneHot xs k h.1 0).0 (omega arith)) h.0
        ∙ add_small 1 0 (omega arith),
    λ lt. absurd (omega (arith, lt)),
  )
  prefix_sum_from_right-IsOneHot (x ∷ xs) (suc k) h (suc j) =
      let later = prefix_sum_from_right-IsOneHot xs k h.1 j in
      (λ le. later.0 (omega (arith, le)), λ lt. later.1 (omega (arith, lt)))

  -- With all positions within the substring, no round of the loop is skipped.
  pub char_at_close_from-weighted :
      (limit value_start : ℕ) (bytes : List ℕ) (sum v : ℕ) (inds : List ℕ)
      → value_start + v + length inds < limit
      → char_at_close_from b limit value_start bytes sum v inds
        ≡ weighted_from b (λ i. at bytes (value_start + (i + 1))) sum v inds
  unfolding char_at_close_from weighted_from
  char_at_close_from-weighted limit s bytes sum v [] lt = refl
  char_at_close_from-weighted limit s bytes sum v (ind ∷ rest) lt =
      rw (lt→ltb (s + (v + 1)) limit (omega arith)) (
        char_at_close_from-weighted limit s bytes (b.add sum (b.mul ind (at bytes (s + (v + 1)))))
          (suc v) rest (omega arith))

  -- A byte counts where its sum is 1, and is zero where the sum is 0.
  pub value_byte-active :
      (limit s : ℕ) (bytes sums : List ℕ) (j : ℕ)
      → s + j < limit
      → at bytes (s + j) < order
      → at sums j ≡ 1
      → value_byte b limit s bytes sums j ≡ at bytes (s + j)
  unfolding value_byte
  value_byte-active limit s bytes sums j lt small one =
      rw (lt→ltb (s + j) limit lt, one) (mul-one (at bytes (s + j)) small)

  pub value_byte-inactive :
      (limit s : ℕ) (bytes sums : List ℕ) (j : ℕ)
      → s + j < limit
      → at sums j ≡ 0
      → value_byte b limit s bytes sums j ≡ 0
  unfolding value_byte
  value_byte-inactive limit s bytes sums j lt none =
      rw (lt→ltb (s + j) limit lt, none) (mul-zero (at bytes (s + j)))

  -- An active byte for which the rule holds is no quote.
  pub quote_rule-ne :
      (limit s : ℕ) (bytes sums inverses : List ℕ) (j : ℕ)
      → s + j < limit
      → at sums j ≡ 1
      → holds (quote_rule b limit s bytes sums inverses j) ≡ true
      → at bytes (s + j) ≢ quote
  unfolding quote_rule
  quote_rule-ne limit s bytes sums inverses j lt one e same =
      let inverse = at inverses j in
      let tested : b.mul (b.sub (at bytes (s + j)) quote) inverse ≡ at sums j =
        ground (arith, lt→ltb (s + j) limit) in
      let none : b.sub (at bytes (s + j)) quote ≡ 0 =
        ap (λ x. b.sub x quote) same ∙ sub_self quote (omega (arith, b.u32_lt_order)) in
      let product = sym (zero-mul inverse) ∙ ap (λ x. b.mul x inverse) (sym none) ∙ tested ∙ one in
      absurd (omega (arith, product))
