-- ===== src/Gadgets/Sha256Variable/Digits.antt =====
-- The length field of SHA-256's padding: the digits of the length in base 2.
use native.Mathlib.Nat.{mod-eq_of_lt, mod-lt, div-add-mod, pow-suc, add-mul-mod_self_right}
use dac_from_legacy_credenti.Prelude.{
  ℕ, zero, suc, ◌+◌, ◌-◌, ◌*◌, ◌/◌, ◌%◌, ◌^◌, ◌≤◌, ◌<◌, ◌≡◌, refl, sym, ap, ◌∙◌, Bool, false, List,
  [], ◌∷◌, map, at, get_or, length, length-map, length-range, range, ◌==◌, arith,
}
use dac_from_legacy_credenti.Prelude.Index.{get_or-map-range}
use dac_from_legacy_credenti.Gadgets.Bits.{weigh, weigh-eq, bits_value, bits_value-weigh}
use dac_from_legacy_credenti.Gadgets.ScalarConversion.{bit_target}
use dac_from_legacy_credenti.Gadgets.Sha256Variable.{length_bits}

digit_le : (q : ℕ) → q % 2 ≤ 1
digit_le q = omega arith

digit_times : (x p : ℕ) → x ≤ 1 → x * p ≤ p
digit_times x p le = grind arith

-- The remainder modulo the next power adds one digit.
mod_next : (w p : ℕ) → 0 < p → w % (p * 2) ≡ w % p + w / p % 2 * p
mod_next w p pos =
    let q = w / p in
    let high : p * q ≡ q % 2 * p + q / 2 * (p * 2) =
      ap (λ k. p * k) (sym (div-add-mod q 2)) ∙ grind arith in
    let split : w ≡ w % p + q % 2 * p + q / 2 * (p * 2) = omega (arith, div-add-mod w p, high) in
    let below : w % p + q % 2 * p < p * 2 =
      omega (arith, mod-lt w pos, digit_times (q % 2) p (digit_le q)) in
    ap (λ k. k % (p * 2)) split
    ∙ add-mul-mod_self_right (w % p + q % 2 * p) (q / 2) (p * 2)
    ∙ mod-eq_of_lt below

pow_pos : (n : ℕ) → 0 < 2 ^ n
pow_pos zero = omega arith
pow_pos (suc n) = omega (arith, pow_pos n, pow-suc 2 n)

-- The digits of a number in base 2 weigh the number, up to the width.
weigh_digits : (w n : ℕ) → weigh (λ i. w / 2 ^ i % 2) n ≡ w % 2 ^ n
unfolding weigh
weigh_digits w zero = omega arith
weigh_digits w (suc n) =
    ap (λ k. k + w / 2 ^ n % 2 * 2 ^ n) (weigh_digits w n)
    ∙ sym (mod_next w (2 ^ n) (pow_pos n))
    ∙ ap (λ k. w % k) (sym (pow-suc 2 n))

bit_target-eq : (q : ℕ) → bit_target (q % 2 == 1) ≡ q % 2
bit_target-eq q = ground arith

pub length_bits-value : (w : ℕ) → bits_value 0 (map bit_target (length_bits w)) ≡ w % 2 ^ 64
unfolding length_bits
length_bits-value w =
    let digit : ℕ → Bool = λ i. (w / 2 ^ (63 - i)) % 2 == 1 in
    let bits = map bit_target (map digit (range 64)) in
    bits_value-weigh bits 64
      (length-map bit_target (map digit (range 64)) ∙ length-map digit (range 64) ∙ length-range 64)
    ∙ weigh-eq (λ i. at bits (64 - (i + 1))) (λ i. w / 2 ^ i % 2) 64
        (λ i lt.
          at-map (map digit (range 64)) (64 - (i + 1))
          ∙ ap bit_target (get_or-map-range digit 64 (64 - (i + 1)) false (omega (arith, lt)))
          ∙ ap (λ k. bit_target ((w / 2 ^ k) % 2 == 1)) {y = i} (omega (arith, lt))
          ∙ bit_target-eq (w / 2 ^ i))
    ∙ weigh_digits w 64
  where
    at-map : (bs : List Bool) (i : ℕ) → at (map bit_target bs) i ≡ bit_target (get_or bs i false)
    at-map [] i = refl
    at-map (b ∷ bs) zero = refl
    at-map (b ∷ bs) (suc i) = at-map bs i

pub length_bits-length : (w : ℕ) → length (length_bits w) ≡ 64
unfolding length_bits
length_bits-length w = length-map (λ i. (w / 2 ^ (63 - i)) % 2 == 1) (range 64) ∙ length-range 64
