-- ===== src/Gadgets/Bits.antt =====
-- Numbers as bits, least significant first in a weighted sum, most significant first in a list.
use native.Mathlib.Nat.{pow-suc, mul_assoc, mul_comm, add-mul}
use dac_from_legacy_credenti.Prelude.{
  ℕ, zero, suc, ◌+◌, ◌-◌, ◌*◌, ◌^◌, ◌≤◌, ◌<◌, ◌≡◌, refl, sym, ap, ap₂, ◌∙◌, List, [], ◌∷◌, at,
  length, arith,
}

-- The sum of `f i * 2 ^ i` for `i` below `n`.
unfoldable pub weigh : (ℕ → ℕ) → ℕ → ℕ
weigh f zero = 0
weigh f (suc n) = weigh f n + f n * 2 ^ n

-- The number that bits stand for, the most significant first.
unfoldable pub bits_value : ℕ → List ℕ → ℕ
bits_value n [] = n
bits_value n (bit ∷ bits) = bits_value (n * 2 + bit) bits

pow-add : (m n : ℕ) → 2 ^ (m + n) ≡ 2 ^ m * 2 ^ n
pow-add m zero = ap (λ k. 2 ^ k) {y = m} (omega arith) ∙ omega arith
pow-add m (suc n) =
    ap (λ k. 2 ^ k) {x = m + suc n} {y = suc (m + n)} (omega arith)
    ∙ pow-suc 2 (m + n)
    ∙ ap (λ p. p * 2) (pow-add m n)
    ∙ mul_assoc (2 ^ m) (2 ^ n) 2
    ∙ ap (λ p. 2 ^ m * p) (sym (pow-suc 2 n))

-- Two functions that agree below `n` weigh the same.
pub weigh-eq : (f g : ℕ → ℕ) (n : ℕ) → ((i : ℕ) → i < n → f i ≡ g i) → weigh f n ≡ weigh g n
unfolding weigh
weigh-eq f g zero h = refl
weigh-eq f g (suc n) h =
    ap₂ ◌+◌ (weigh-eq f g n (λ i lt. h i (omega arith))) (ap (λ x. x * 2 ^ n) (h n (omega arith)))

-- Bits weigh less than the next power.
pub weigh-lt : (f : ℕ → ℕ) (n : ℕ) → ((i : ℕ) → f i ≤ 1) → weigh f n < 2 ^ n
unfolding weigh
weigh-lt f zero h = omega arith
weigh-lt f (suc n) h =
    let small : f n * 2 ^ n ≤ 2 ^ n = bit_times (f n) (2 ^ n) (h n) in
    omega (arith, weigh-lt f n h, small, pow-suc 2 n)
  where
    bit_times : (x p : ℕ) → x ≤ 1 → x * p ≤ p
    bit_times x p le = grind arith

-- A weighted sum, split at `m`.
pub weigh-split :
    (f : ℕ → ℕ) (m n : ℕ) → weigh f (m + n) ≡ weigh f m + weigh (λ j. f (m + j)) n * 2 ^ m
unfolding weigh
weigh-split f m zero = ap (weigh f) {y = m} (omega arith) ∙ omega arith
weigh-split f m (suc n) =
    let g : ℕ → ℕ = λ j. f (m + j) in
    ap (weigh f) {x = m + suc n} {y = suc (m + n)} (omega arith)
    ∙ ap₂ ◌+◌ (weigh-split f m n) (
        ap (λ p. f (m + n) * p) (pow-add m n ∙ mul_comm (2 ^ m) (2 ^ n))
        ∙ sym (mul_assoc (f (m + n)) (2 ^ n) (2 ^ m)))
    ∙ omega (arith, add-mul (weigh g n) (g n * 2 ^ n) (2 ^ m))

-- Bits with the most significant first, counted from the last.
bits_value-shift :
    (n : ℕ) (bits : List ℕ) → bits_value n bits ≡ n * 2 ^ length bits + bits_value 0 bits
unfolding bits_value
bits_value-shift n [] = omega arith
bits_value-shift n (bit ∷ bits) =
    let p = 2 ^ length bits in
    bits_value-shift (n * 2 + bit) bits
    ∙ omega (
      arith,
      bits_value-shift (0 * 2 + bit) bits,
      add-mul (n * 2) bit p,
      mul_assoc n 2 p,
      mul_comm 2 p,
      ap (λ q. n * q) (pow-suc 2 (length bits)),
      ap (λ q. n * q) (mul_comm 2 p),
    )

pub bits_value-weigh :
    (bits : List ℕ) (n : ℕ)
    → length bits ≡ n
    → bits_value 0 bits ≡ weigh (λ i. at bits (n - (i + 1))) n
unfolding bits_value weigh
bits_value-weigh [] n e = let none : n ≡ 0 = omega arith in rw none refl
bits_value-weigh (bit ∷ bits) n e =
    let size : n ≡ suc (length bits) = omega arith in
    rw size (step bit bits (bits_value-weigh bits (length bits) refl))
  where
    step :
        (bit : ℕ) (bits : List ℕ)
        → bits_value 0 bits ≡ weigh (λ i. at bits (length bits - (i + 1))) (length bits)
        → bits_value (0 * 2 + bit) bits
          ≡ weigh (λ i. at (bit ∷ bits) (suc (length bits) - (i + 1))) (length bits)
            + at (bit ∷ bits) (suc (length bits) - (length bits + 1)) * 2 ^ length bits
    step bit bits ih =
        let k = length bits in
        let same : weigh (λ i. at (bit ∷ bits) (suc k - (i + 1))) k ≡ bits_value 0 bits =
          weigh-eq (λ i. at (bit ∷ bits) (suc k - (i + 1))) (λ i. at bits (k - (i + 1))) k
            (λ i lt. ap (at (bit ∷ bits)) {y = suc (k - (i + 1))} (omega (arith, lt)))
          ∙ sym ih in
        let first : at (bit ∷ bits) (suc k - (k + 1)) ≡ bit =
          ap (at (bit ∷ bits)) {y = 0} (omega arith) in
        bits_value-shift (0 * 2 + bit) bits
        ∙ omega (
          arith,
          same,
          ap (λ x. x * 2 ^ k) first,
          ap (λ x. x * 2 ^ k) {x = 0 * 2 + bit} {y = bit} (omega arith),
        )

pub weigh-zero : (f : ℕ → ℕ) → weigh f 0 ≡ 0
unfolding weigh
weigh-zero f = refl
