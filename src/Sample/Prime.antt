-- ===== src/Sample/Prime.antt =====
-- A prime field above the range of `u32`, as a concrete builder.
use native.Mathlib.Nat.{
  mod-lt, div-add-mod, add-mul-mod_self_right, mul_assoc, mul_comm, mul-add, mul-le-mul_left,
  mul-le-mul_right, mul-mod_right, mul-sub, add-mul,
}
use dac_from_legacy_credenti.Prelude.{
  ℕ, zero, suc, ◌+◌, ◌-◌, ◌*◌, ◌/◌, ◌%◌, ◌^◌, ◌≤◌, ◌<◌, ◌≡◌, ◌≢◌, refl, sym, ap, ◌∙◌, ◌⊎◌, inl, inr,
  Bool, true, false, not, ◌||◌, get_or, ltb, ltb→lt, lt→ltb, ◌==◌, ==_iff, if◌then◌else◌, dec_lt,
  ℕ_discrete, arith,
}
use dac_from_legacy_credenti.Plonky2.Field.{Builder}

-- The least prime above `2 ^ 32`.
abbrev pub prime : ℕ
prime = 4294967311

no_divisor : ℕ → Bool
no_divisor zero = true
no_divisor (suc d) = elim (ltb d 2 || not (prime % d == 0)) [ true ↦ no_divisor d | false ↦ false ]

no_divisor-table : no_divisor 65538 ≡ true
unfolding no_divisor
no_divisor-table = refl

no_divisor_sound : (n d : ℕ) → no_divisor n ≡ true → 2 ≤ d → d < n → prime % d ≢ 0
unfolding no_divisor
no_divisor_sound zero d h two lt = absurd (omega arith)
no_divisor_sound (suc n) d h two lt = elim (ℕ_discrete d n) [
  | yes e ↦ rw e (ground (arith, e))
  | no ne ↦ no_divisor_sound n d (ground arith) two (omega arith)
]

mul-mod_left' : (a k : ℕ) → 0 < k → (a * k) % k ≡ 0
mul-mod_left' a k pos = ap (λ x. x % k) (mul_comm a k) ∙ mul-mod_right k a

prime-mod-ne-zero : (a : ℕ) → 2 ≤ a → a < prime → prime % a ≢ 0
prime-mod-ne-zero a two lt = elim (dec_lt a 65538) [
  | yes small ↦ no_divisor_sound 65538 a no_divisor-table two small
  | no large ↦ λ e.
      let k = prime / a in
      let whole : a * k ≡ prime = omega (arith, div-add-mod prime a, e) in
      let small : k < 65538 = elim (dec_lt k 65538) [
        | yes s ↦ s
        | no l ↦ absurd (
            omega (
              arith,
              whole,
              mul-le-mul_left {m = 65538} {n = k} a (omega arith),
              mul-le-mul_right {m = 65538} {n = a} 65538 (omega arith),
            ))
      ] in
      let some : k ≢ 0 = λ z. absurd (omega (arith, whole, ap (λ x. a * x) z)) in
      let more : k ≢ 1 = λ z. absurd (omega (arith, whole, ap (λ x. a * x) z)) in
      no_divisor_sound 65538 k no_divisor-table (omega (arith, some, more)) small
        (ap (λ x. x % k) (sym whole) ∙ mul-mod_left' a k (omega (arith, some)))
]

-- A product may be reduced in its second factor first.
pub mul-mod-mod : (a x : ℕ) → (a * (x % prime)) % prime ≡ (a * x) % prime
mul-mod-mod a x =
    sym (add-mul-mod_self_right (a * (x % prime)) (a * (x / prime)) prime)
    ∙ ap (λ y. y % prime)
        (ap (λ y. a * (x % prime) + y)
            (mul_assoc a (x / prime) prime ∙ ap (λ y. a * y) (mul_comm (x / prime) prime))
          ∙ sym (mul-add a (x % prime) (prime * (x / prime)))
          ∙ ap (λ y. a * y) (omega (arith, div-add-mod x prime)))

-- The inverse, by `p = a * q + r`: the inverse of `a` is `- q` times the inverse of `r`.
unfoldable pub inverse_of : ℕ → ℕ → ℕ
inverse_of zero a = 1
inverse_of (suc fuel) a =
    let rest = inverse_of fuel (prime % a) in
    if a == 1 then 1 else ((prime - prime / a) * rest) % prime

pub inverse_of-mul : (n a : ℕ) → a ≤ n → 0 < a → a < prime → (a * inverse_of n a) % prime ≡ 1
unfolding inverse_of
inverse_of-mul zero a le pos lt = absurd (omega arith)
inverse_of-mul (suc n) a le pos lt = elim (ℕ_discrete a 1) [
  | yes e ↦ rw e refl
  | no ne ↦
      let r = prime % a in
      let q = prime / a in
      let rest = inverse_of n r in
      let small : r < a = mod-lt prime pos in
      let some : r ≢ 0 = prime-mod-ne-zero a (omega arith) lt in
      let ih = inverse_of-mul n r (omega arith) (omega (arith, some)) (omega arith) in
      let other : (a == 1) ≡ false = ground (arith, ne, ==_iff a 1) in
      let whole = div-add-mod prime a in
      let times : a * (prime - q) ≡ r + (a - 1) * prime =
        mul-sub a prime q ∙ omega (arith, whole) in
      let spread : a * ((prime - q) * rest) ≡ r * rest + (a - 1) * rest * prime =
        sym (mul_assoc a (prime - q) rest)
        ∙ ap (λ y. y * rest) times
        ∙ add-mul r ((a - 1) * prime) rest
        ∙ ap (λ y. r * rest + y)
            (mul_assoc (a - 1) prime rest
              ∙ ap (λ y. (a - 1) * y) (mul_comm prime rest)
              ∙ sym (mul_assoc (a - 1) rest prime)) in
      rw other (
        mul-mod-mod a ((prime - q) * rest)
        ∙ ap (λ y. y % prime) spread
        ∙ add-mul-mod_self_right (r * rest) ((a - 1) * rest) prime
        ∙ ih)
]

nothing : (i : ℕ) → (i * 0) % prime ≡ 0
nothing i = omega arith

-- A product that is 0 has a factor that is 0.
pub mul_domain_mod : (a b : ℕ) → a < prime → b < prime → (a * b) % prime ≡ 0 → (a ≡ 0) ⊎ (b ≡ 0)
mul_domain_mod a b la lb e = elim (ℕ_discrete a 0) [
  | yes z ↦ inl z
  | no ne ↦
      let i = inverse_of a a in
      let one = inverse_of-mul a a (omega arith) (omega (arith, ne)) la in
      let back : (b * ((a * i) % prime)) % prime ≡ b =
        ap (λ x. (b * x) % prime) one ∙ omega arith in
      let turn : b * (a * i) ≡ i * (a * b) =
        sym (mul_assoc b a i) ∙ mul_comm (b * a) i ∙ ap (λ x. i * x) (mul_comm b a) in
      inr (
        sym back
        ∙ mul-mod-mod b (a * i)
        ∙ ap (λ x. x % prime) turn
        ∙ sym (mul-mod-mod i (a * b))
        ∙ ap (λ x. (i * x) % prime) e
        ∙ nothing i)
]

abbrev pub sample : Builder
sample = record {
  order = prime;
  u32_lt_order = omega arith;
  add = λ a b. (a + b) % prime;
  sub = λ a b. (a + prime - b) % prime;
  mul = λ a b. (a * b) % prime;
  inverse = λ a. inverse_of a a % prime;
  add_lem = λ a b. refl;
  sub_lem = λ a b _ _. refl;
  mul_lem = λ a b. refl;
  mul_domain = mul_domain_mod;
  inverse_bound = λ a. mod-lt (inverse_of a a) (omega arith);
  mul-inverse = λ a lt ne.
      mul-mod-mod a (inverse_of a a) ∙ inverse_of-mul a a (omega arith) (omega (arith, ne)) lt;
  range_check = λ x bits. ltb x (2 ^ bits);
  range_check_iff = λ x bits. (ltb→lt x (2 ^ bits), lt→ltb x (2 ^ bits));
  is_equal = λ a b. a == b;
  is_equal_iff = ==_iff;
  select = λ c a b. if c then a else b;
  select_true = λ a b. refl;
  select_false = λ a b. refl;
  random_access = λ i table. get_or table i 0;
  random_access_lem = λ i table _. refl;
}
