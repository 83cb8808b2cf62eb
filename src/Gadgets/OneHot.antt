-- ===== src/Gadgets/OneHot.antt =====
-- What the one-hot indicator enforces.
use native.Mathlib.Nat.{mod-eq_of_lt, mod-lt, add-mod, mod-eq-sub-mod, mul-add}
use dac_from_legacy_credenti.Prelude.{
  ℕ, zero, suc, ◌+◌, ◌-◌, ◌*◌, ◌%◌, ◌≤◌, ◌<◌, ◌≡◌, refl, sym, ap, ◌∙◌, ◌⊎◌, inl, inr, true, List,
  [], ◌∷◌, All, length, ==_iff, ℕ_discrete, dec_lt, arith,
}
use dac_from_legacy_credenti.Plonky2.Field.{Builder}
use dac_from_legacy_credenti.Plonky2.Circuit.{
  holds, connect, for_each, for_each-All, virtual_target, virtual_targets, virtual_targets-holds,
}
use dac_from_legacy_credenti.Gadgets.{
  OneHotTargets, sum_from, weighted_from, make_one_hot_indicator,
}

-- One element is 1, the one at the index; the others are 0.
abbrev pub IsOneHot : List ℕ → ℕ → Type 0
IsOneHot [] i = ⊥
IsOneHot (x ∷ xs) zero = (x ≡ 1) × All (λ y. y ≡ 0) xs
IsOneHot (x ∷ xs) (suc i) = (x ≡ 0) × IsOneHot xs i

IsOneHot-bound : (xs : List ℕ) (i : ℕ) → IsOneHot xs i → i < length xs
IsOneHot-bound [] i h = absurd h
IsOneHot-bound (x ∷ xs) zero h = omega arith
IsOneHot-bound (x ∷ xs) (suc i) h = omega (arith, IsOneHot-bound xs i h.1)

-- How many ones a vector of zeros and ones has.
ones : List ℕ → ℕ
ones [] = 0
ones (x ∷ xs) = x + ones xs

abbrev IsBit : ℕ → Type 0
IsBit x = (x ≡ 0) ⊎ (x ≡ 1)

ones-zero : (xs : List ℕ) → ones xs ≡ 0 → All (λ y. y ≡ 0) xs
unfolding ones
ones-zero [] h = tt
ones-zero (x ∷ xs) h = (omega arith, ones-zero xs (omega arith))

ones-IsOneHot : (xs : List ℕ) → All IsBit xs → ones xs ≡ 1 → (i : ℕ) × IsOneHot xs i
unfolding ones
ones-IsOneHot [] bits h = absurd (omega arith)
ones-IsOneHot (x ∷ xs) bits h = elim (bits.0) [
  | inr one ↦ (0, (one, ones-zero xs (omega arith)))
  | inl none ↦ let (i, rest) = ones-IsOneHot xs bits.1 (omega arith) in (suc i, (none, rest))
]

ones-le : (xs : List ℕ) → All IsBit xs → ones xs ≤ length xs
unfolding ones
ones-le [] bits = omega arith
ones-le (x ∷ xs) bits = omega (arith, bits.0, ones-le xs bits.1)

module _ (b : Builder) where
  open b use {order}

  -- In the field, `x * x ≡ x` has the solutions 0 and 1 only.
  square-IsBit : (x : ℕ) → x < order → x ≡ b.mul x x → IsBit x
  square-IsBit x lt e = elim (ℕ_discrete x 0) [
    | yes none ↦ inl none
    | no some ↦
        let m = x * (x - 1) in
        let t = m % order in
        let big = b.u32_lt_order in
        let bound : t < order = mod-lt m (omega (arith, big)) in
        let parted : x * x ≡ m + x =
          ap (λ y. x * y) (omega (arith, some)) ∙ mul-add x (x - 1) 1 ∙ omega arith in
        let step : x ≡ (t + x) % order =
          e
          ∙ b.mul_lem x x
          ∙ ap (λ y. y % order) parted
          ∙ add-mod m x order
          ∙ ap (λ y. (t + y) % order) (mod-eq_of_lt lt) in
        let none : t ≡ 0 = elim (dec_lt (t + x) order) [
          | yes inside ↦ omega (arith, step ∙ mod-eq_of_lt inside)
          | no outside ↦
              let wrapped =
                step
                ∙ mod-eq-sub-mod {n = t + x} {m = order} (omega arith)
                ∙ mod-eq_of_lt {n = t + x - order} {m = order} (omega arith) in
              absurd (omega (arith, wrapped))
        ] in
        elim (b.mul_domain x (x - 1) lt (omega arith) (b.mul_lem x (x - 1) ∙ none)) [
          | inl z ↦ absurd (some z)
          | inr z ↦ inr (omega (arith, z, some))
        ]
  ]

  -- A sum of bits that are fewer than the field's order does not wrap around.
  sum_from-ones :
      (sum : ℕ) (xs : List ℕ)
      → All IsBit xs
      → sum + length xs < order
      → sum_from b sum xs ≡ sum + ones xs
  unfolding sum_from ones
  sum_from-ones sum [] bits lt = omega arith
  sum_from-ones sum (x ∷ xs) bits lt =
      let exact : b.add sum x ≡ sum + x = b.add_lem sum x ∙ mod-eq_of_lt (omega (arith, bits.0)) in
      rw exact (sum_from-ones (sum + x) xs bits.1 (omega (arith, bits.0)) ∙ omega arith)

  times_zero : (x : ℕ) → b.mul 0 x ≡ 0
  times_zero x =
      b.mul_lem 0 x
      ∙ ap (λ y. y % order) {y = 0} (omega arith)
      ∙ mod-eq_of_lt (omega (arith, b.u32_lt_order))

  weighted_from-zeros :
      (term : ℕ → ℕ) (sum i : ℕ) (xs : List ℕ)
      → All (λ y. y ≡ 0) xs
      → sum < order
      → weighted_from b term sum i xs ≡ sum
  unfolding weighted_from
  weighted_from-zeros term sum i [] zeros lt = refl
  weighted_from-zeros term sum i (x ∷ xs) zeros lt =
      let exact : b.add sum (b.mul x (term i)) ≡ sum =
        ap (λ y. b.add sum (b.mul y (term i))) zeros.0
        ∙ ap (b.add sum) (times_zero (term i))
        ∙ b.add_lem sum 0
        ∙ mod-eq_of_lt {n = sum + 0} (omega arith)
        ∙ omega arith in
      rw exact (weighted_from-zeros term sum (suc i) xs zeros.1 lt)

  -- Under a one-hot indicator a weighted sum is the term at its index.
  pub weighted_from-IsOneHot :
      (term : ℕ → ℕ) (i k : ℕ) (xs : List ℕ)
      → IsOneHot xs k
      → term (i + k) < order
      → weighted_from b term 0 i xs ≡ term (i + k)
  unfolding weighted_from
  weighted_from-IsOneHot term i k [] hot lt = absurd hot
  weighted_from-IsOneHot term i zero (x ∷ xs) hot lt =
      let here : i + 0 ≡ i = omega arith in
      let exact : b.add 0 (b.mul x (term i)) ≡ term i =
        ap (λ y. b.add 0 (b.mul y (term i))) hot.0
        ∙ ap (b.add 0) (
            b.mul_lem 1 (term i)
            ∙ ap (λ y. y % order) {y = term i} (omega arith)
            ∙ mod-eq_of_lt (omega (arith, lt, ap term here)))
        ∙ b.add_lem 0 (term i)
        ∙ mod-eq_of_lt {n = 0 + term i} (omega (arith, lt, ap term here))
        ∙ omega arith in
      rw exact (
        weighted_from-zeros term (term i) (suc i) xs hot.1 (omega (arith, lt, ap term here))
        ∙ ap term (sym here))
  weighted_from-IsOneHot term i (suc k) (x ∷ xs) hot lt =
      let next : suc i + k ≡ i + suc k = omega arith in
      let exact : b.add 0 (b.mul x (term i)) ≡ 0 =
        ap (λ y. b.add 0 (b.mul y (term i))) hot.0
        ∙ ap (b.add 0) (times_zero (term i))
        ∙ b.add_lem 0 0
        ∙ mod-eq_of_lt (omega (arith, b.u32_lt_order)) in
      rw exact (
        weighted_from-IsOneHot term (suc i) k xs hot.1 (omega (arith, lt, ap term next))
        ∙ ap term next)

  pub weighted_from-first :
      (term : ℕ → ℕ) (k : ℕ) (xs : List ℕ)
      → IsOneHot xs k
      → term k < order
      → weighted_from b term 0 0 xs ≡ term k
  weighted_from-first term k xs hot lt =
      let here : 0 + k ≡ k = omega arith in
      weighted_from-IsOneHot term 0 k xs hot (omega (arith, lt, ap term here)) ∙ ap term here

  -- An assignment that satisfies the indicator circuit has one 1 among `size` elements, zeros
  -- otherwise, and the value is the index of the 1 plus the offset. The size and the greatest
  -- value are below the field's order.
  pub make_one_hot_indicator-IsOneHot :
      (size offset : ℕ) (t : OneHotTargets)
      → size + offset < order
      → holds (make_one_hot_indicator b size offset t) ≡ true
      → (k : ℕ) × IsOneHot t.indicator k × (k < size) × (t.value ≡ k + offset)
  unfolding make_one_hot_indicator virtual_targets virtual_target
  make_one_hot_indicator-IsOneHot size offset t lt e =
      let xs = t.indicator in
      let shape : holds (virtual_targets b size xs) ≡ true = ground arith in
      let squares : holds (for_each (λ x. connect x (b.mul x x)) xs) ≡ true = ground arith in
      let total : sum_from b 0 xs ≡ 1 = ground arith in
      let weighted : weighted_from b (λ i. i + offset) 0 0 xs ≡ t.value = ground arith in
      let (count, elements) = virtual_targets-holds b size xs shape in
      let bits = both xs elements (for_each-All (λ x. connect x (b.mul x x)) xs squares) in
      let counted = sum_from-ones 0 xs bits (omega (arith, count)) in
      let one : ones xs ≡ 1 = omega (arith, counted, total) in
      let (k, hot) = ones-IsOneHot xs bits one in
      let within = IsOneHot-bound xs k hot in
      (
        k,
        hot,
        omega (arith, within, count),
        sym weighted
            ∙ weighted_from-first (λ i. i + offset) k xs hot (omega (arith, within, count)),
      )
    where
      both :
          (xs : List ℕ)
          → All (λ v. v < order) xs
          → All (λ x. holds (connect x (b.mul x x)) ≡ true) xs
          → All IsBit xs
      both [] p q = tt
      both (x ∷ xs) p q = (square-IsBit x p.0 ((==_iff x (b.mul x x)).0 q.0), both xs p.1 q.1)

  -- The indicator has `size` elements.
  pub length-indicator :
      (size offset : ℕ) (t : OneHotTargets)
      → holds (make_one_hot_indicator b size offset t) ≡ true
      → length t.indicator ≡ size
  unfolding make_one_hot_indicator virtual_targets virtual_target
  length-indicator size offset t e =
      let shape : holds (virtual_targets b size t.indicator) ≡ true = ground arith in
      (virtual_targets-holds b size t.indicator shape).0
