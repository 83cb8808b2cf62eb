-- ===== src/Plonky2/Satisfy.antt =====
-- Loops and vectors of field elements, from the prover's side: what makes each constraint hold.
use dac_from_legacy_credenti.Prelude.{
  ℕ, zero, suc, ◌<◌, ◌≡◌, refl, ap₂, true, ◌&&◌, List, [], ◌∷◌, ◌++◌, range, lt→ltb, All, arith,
}
use dac_from_legacy_credenti.Plonky2.Field.{Builder}
use dac_from_legacy_credenti.Plonky2.Circuit.{Circuit, Done, holds, for_each, are_elements}

-- A loop holds whose every round holds.
pub All-for_each :
    {A : Type 0} (body : A → Circuit Done) (xs : List A)
    → All (λ x. holds (body x) ≡ true) xs
    → holds (for_each body xs) ≡ true
unfolding for_each
All-for_each body [] a = refl
All-for_each body (x ∷ xs) a = ap₂ ◌&&◌ a.0 (All-for_each body xs a.1)

All-snoc :
    {A : Type 0} (P : A → Type 0) (xs : List A) (x : A) → All P xs → P x → All P (xs ++ (x ∷ []))
All-snoc P [] x a p = (p, tt)
All-snoc P (y ∷ xs) x a p = (a.0, All-snoc P xs x a.1 p)

range-All : (P : ℕ → Type 0) (n : ℕ) → ((i : ℕ) → i < n → P i) → All P (range n)
range-All P zero f = tt
range-All P (suc n) f =
    All-snoc P (range n) n (range-All P n (λ i lt. f i (omega arith))) (f n (omega arith))

pub range-for_each :
    (body : ℕ → Circuit Done) (n : ℕ)
    → ((i : ℕ) → i < n → holds (body i) ≡ true)
    → holds (for_each body (range n)) ≡ true
range-for_each body n f = All-for_each body (range n) (range-All (λ i. holds (body i) ≡ true) n f)

pub All-are_elements :
    (b : Builder) (vs : List ℕ) → All (λ v. v < b.order) vs → are_elements b vs ≡ true
unfolding are_elements
All-are_elements b [] a = refl
All-are_elements b (v ∷ vs) a = ap₂ ◌&&◌ (lt→ltb v b.order a.0) (All-are_elements b vs a.1)
