-- ===== src/JwtBase/Payload.antt =====
-- What the payload rule of src/circuits/jwt_base.rs says of the input of the decoder.
use native.Mathlib.Nat.{mod-eq_of_lt, mod-lt, mod-eq-sub-mod, mod-add-mod, add-mod_right}
use dac_from_legacy_credenti.Prelude.{
  ℕ, zero, suc, ◌+◌, ◌-◌, ◌%◌, ◌≤◌, ◌<◌, ◌≡◌, sym, ap, ◌∙◌, Bool, true, List, [], ◌∷◌, at, ◌==◌,
  ==_iff, &&-split, dec_lt, arith,
}
use dac_from_legacy_credenti.Prelude.Index.{get_or-map-range}
use dac_from_legacy_credenti.Plonky2.Field.{Builder}
use dac_from_legacy_credenti.Plonky2.Circuit.{Circuit, Done, holds, connect, for_each-range}
use dac_from_legacy_credenti.Gadgets.{OneHotTargets, make_one_hot_indicator}
use dac_from_legacy_credenti.Gadgets.OneHot.{IsOneHot, make_one_hot_indicator-IsOneHot}
use dac_from_legacy_credenti.Gadgets.JsonParse.Value.{
  zero-mul, sums_of_zeros, prefix_sum_from_right-IsOneHot,
}
use dac_from_legacy_credenti.JwtBase.{
  char_a, byte_from_message_bits, bytes_from_message_bits, is_active, payload_rule,
}
use dac_from_legacy_credenti.JwtBase.Header.{
  message_byte, message_byte-lt, byte_from_message_bits-message_byte,
}

module _ (b : Builder) where
  open b use {order}

  -- A difference that does not wrap around has its sum.
  sub-eq : (x y d : ℕ) → x < order → y < order → d + y < order → b.sub x y ≡ d → x ≡ d + y
  sub-eq x y d hx hy small e =
      let whole : (x + order - y) % order ≡ d = sym (b.sub_lem x y hx hy) ∙ e in
      elim (dec_lt (x + order - y) order) [
        | yes below ↦ absurd (omega (arith, whole, mod-eq_of_lt below))
        | no other ↦ omega (
          arith,
          whole,
          mod-eq-sub-mod {n = x + order - y} {m = order} (omega arith),
          mod-eq_of_lt {n = x + order - y - order} {m = order} (omega arith),
        )
      ]

  add-sub : (x y : ℕ) → x < order → y < order → b.add (b.sub x y) y ≡ x
  add-sub x y hx hy =
      b.add_lem (b.sub x y) y
      ∙ ap (λ k. (k + y) % order) (b.sub_lem x y hx hy)
      ∙ mod-add-mod (x + order - y) order y
      ∙ ap (λ k. k % order) {y = x + order} (omega arith)
      ∙ add-mod_right x order
      ∙ mod-eq_of_lt hx

  sub-lt : (x y : ℕ) → x < order → y < order → b.sub x y < order
  sub-lt x y hx hy =
      omega (arith, b.sub_lem x y hx hy, mod-lt (x + order - y) {m = order} (omega arith))

  -- The mask is 1 below the length that the indicator names, and 0 from there on.
  is_active-IsOneHot :
      (indicator : List ℕ) (len : ℕ)
      → IsOneHot indicator len
      → (i : ℕ)
      → (i < len → at (is_active b indicator) i ≡ 1) × (len ≤ i → at (is_active b indicator) i ≡ 0)
  unfolding is_active
  is_active-IsOneHot [] len hot i = absurd hot
  is_active-IsOneHot (x ∷ xs) zero hot i =
      (λ lt. absurd (omega (arith, lt)), λ _. sums_of_zeros b xs hot.1 i)
  is_active-IsOneHot (x ∷ xs) (suc len) hot i =
      let sums = prefix_sum_from_right-IsOneHot b xs len hot.1 i in
      (λ lt. sums.0 (omega (arith, lt)), λ le. sums.1 (omega (arith, le)))

  -- Where the mask is 1 the rule gives the byte, and where it is 0 it gives the `A`.
  masked-active :
      (active byte : ℕ)
      → byte < order
      → active ≡ 1
      → b.add (b.mul active (b.sub byte char_a)) char_a ≡ byte
  masked-active active byte small one =
      let big = b.u32_lt_order in
      let fill_small : char_a < order = omega (arith, big) in
      ap (λ x. b.add (b.mul x (b.sub byte char_a)) char_a) one
      ∙ ap (λ x. b.add x char_a)
          (b.mul_lem 1 (b.sub byte char_a)
            ∙ ap (λ y. y % order) {y = b.sub byte char_a} (omega arith)
            ∙ mod-eq_of_lt (sub-lt byte char_a small fill_small))
      ∙ add-sub byte char_a small fill_small

  masked-inactive :
      (active byte : ℕ) → active ≡ 0 → b.add (b.mul active (b.sub byte char_a)) char_a ≡ char_a
  masked-inactive active byte none =
      ap (λ x. b.add (b.mul x (b.sub byte char_a)) char_a) none
      ∙ ap (λ x. b.add x char_a) (zero-mul b (b.sub byte char_a))
      ∙ b.add_lem 0 char_a
      ∙ mod-eq_of_lt (omega (arith, b.u32_lt_order))

  -- An assignment that satisfies the rule has a payload length: the message has that many bytes
  -- from the payload on, the decoder reads exactly these, and an `A` at each position after them.
  -- The greatest length of the message is below the field's order.
  pub payload_rule-message_byte :
      (max offset : ℕ) (bits : List Bool) (msg_len : ℕ) (input : List ℕ) (t : OneHotTargets)
      → msg_len < order
      → max + 1 + offset < order
      → holds (payload_rule b max offset bits msg_len input t) ≡ true
      → (len : ℕ) × (len ≤ max)
        × (msg_len ≡ len + offset)
        × ((i : ℕ) → i < len → at input i ≡ message_byte bits (offset + i))
        × ((i : ℕ) → len ≤ i → i < max → at input i ≡ char_a)
  unfolding payload_rule make_one_hot_indicator bytes_from_message_bits
  payload_rule-message_byte max offset bits msg_len input t short small e =
      let (hot_holds, rest) = &&-split (holds (make_one_hot_indicator b (max + 1) 0 t)) _ e in
      let (joined, positions) = &&-split (t.value == b.sub msg_len offset) _ rest in
      let (len, hot, within, index) =
        make_one_hot_indicator-IsOneHot b (max + 1) 0 t (omega arith) hot_holds in
      let active = is_active b t.indicator in
      let mask = is_active-IsOneHot t.indicator len hot in
      let bytes = bytes_from_message_bits b bits offset max in
      let byte : (i : ℕ) → i < max → at bytes i ≡ message_byte bits (offset + i) = λ i lt.
        get_or-map-range (λ j. byte_from_message_bits b bits (offset + j)) max i 0 lt
        ∙ byte_from_message_bits-message_byte b bits (offset + i) in
      let body : ℕ → Circuit Done = λ i.
        connect (at input i) (b.add (b.mul (at active i) (b.sub (at bytes i) char_a)) char_a) in
      let stands : (i : ℕ)
          → i < max
          → at input i ≡ b.add (b.mul (at active i) (b.sub (at bytes i) char_a)) char_a =
        λ i lt. (==_iff (at input i) _).0 (for_each-range body max i positions lt) in
      (
        len,
        omega (arith, within),
        sub-eq msg_len offset len short (omega (arith, small)) (omega (arith, within, small))
            (sym ((==_iff t.value (b.sub msg_len offset)).0 joined) ∙ index ∙ omega arith),
        λ i lt.
            let inside : i < max = omega (arith, lt, within) in
            stands i inside
            ∙ masked-active (at active i) (at bytes i)
                (omega (arith, byte i inside, message_byte-lt bits (offset + i), b.u32_lt_order))
                ((mask i).0 lt)
            ∙ byte i inside,
        λ i le lt. stands i lt ∙ masked-inactive (at active i) (at bytes i) ((mask i).1 le),
      )
