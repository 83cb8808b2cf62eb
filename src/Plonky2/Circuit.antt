-- ===== src/Plonky2/Circuit.antt =====
-- A circuit as it is built, read at one assignment of its targets: each step has the value of the
-- target that it returns, and whether the constraints laid down so far hold. A builder that
-- panics lays down a constraint that fails.
use dac_from_legacy_credenti.Prelude.{
  ℕ, ◌<◌, ◌≡◌, refl, Bool, true, false, ◌&&◌, List, [], ◌∷◌, length, ltb, ◌==◌, ltb→lt, ==_iff,
  &&-split, All, All-range, range, arith,
}
use dac_from_legacy_credenti.Plonky2.Field.{Builder}

abbrev pub Circuit : Type 0 → Type 0
Circuit A = A × Bool

abbrev pub Done : Type 0
Done = Unit

-- Whether every constraint holds.
abbrev pub holds : {A : Type 0} → Circuit A → Bool
holds c = c.1

abbrev pub value : {A : Type 0} → Circuit A → A
value c = c.0

infixl 5 ◌>>=◌ ◌>>◌
abbrev pub ◌>>=◌ : {A B : Type 0} → Circuit A → (A → Circuit B) → Circuit B
◌>>=◌ m f = let (a, h) = m in let (b, k) = f a in (b, h && k)

abbrev pub ◌>>◌ : {A B : Type 0} → Circuit A → Circuit B → Circuit B
m >> c = m >>= λ _. c

abbrev pub pure : {A : Type 0} → A → Circuit A
pure a = (a, true)

-- `assert!` while the circuit is built
abbrev pub assert : Bool → Circuit Done
assert b = (tt, b)

-- `builder.connect`
abbrev pub connect : ℕ → ℕ → Circuit Done
connect a b = (tt, a == b)

-- a loop `for x in xs { … }` that lays down constraints
unfoldable pub for_each : {A : Type 0} → (A → Circuit Done) → List A → Circuit Done
for_each body [] = pure tt
for_each body (x ∷ xs) = body x >> for_each body xs

-- `for (a, b) in xs.zip(ys) { builder.connect(a, b) }`, for vectors of one length
unfoldable pub connect_all : List ℕ → List ℕ → Circuit Done
connect_all [] [] = pure tt
connect_all (x ∷ xs) (y ∷ ys) = connect x y >> connect_all xs ys
connect_all xs ys = (tt, false)

module _ (b : Builder) where
  -- `add_virtual_target`: the assignment gives it a field element
  unfoldable pub virtual_target : ℕ → Circuit ℕ
  virtual_target v = (v, ltb v b.order)

  unfoldable pub are_elements : List ℕ → Bool
  are_elements [] = true
  are_elements (v ∷ vs) = ltb v b.order && are_elements vs

  -- `(0..count).map(|_| builder.add_virtual_target())`
  unfoldable pub virtual_targets : ℕ → List ℕ → Circuit (List ℕ)
  virtual_targets count vs = (vs, length vs == count && are_elements vs)

  -- `builder.range_check`
  unfoldable pub range_checked : ℕ → ℕ → Circuit Done
  range_checked x bits = (tt, b.range_check x bits)

  pub are_elements-All : (vs : List ℕ) → are_elements vs ≡ true → All (λ v. v < b.order) vs
  unfolding are_elements
  are_elements-All [] h = tt
  are_elements-All (v ∷ vs) h = ground (arith, are_elements-All vs)

  pub virtual_targets-holds :
      (n : ℕ) (vs : List ℕ)
      → holds (virtual_targets n vs) ≡ true
      → (length vs ≡ n) × All (λ v. v < b.order) vs
  unfolding virtual_targets
  virtual_targets-holds n vs h =
      let parts = &&-split (length vs == n) (are_elements vs) h in
      ((==_iff (length vs) n).0 parts.0, are_elements-All vs parts.1)

  pub virtual_target-holds : (v : ℕ) → holds (virtual_target v) ≡ true → v < b.order
  unfolding virtual_target
  virtual_target-holds v h = ltb→lt v b.order h

-- A bind holds exactly when both of its parts do.
pub >>=-holds :
    {A B : Type 0} (m : Circuit A) (f : A → Circuit B)
    → holds (m >>= f) ≡ true
    → (holds m ≡ true) × (holds (f (value m)) ≡ true)
>>=-holds m f h = &&-split (holds m) (holds (f (value m))) h

pub for_each-All :
    {A : Type 0} (body : A → Circuit Done) (xs : List A)
    → holds (for_each body xs) ≡ true
    → All (λ x. holds (body x) ≡ true) xs
unfolding for_each
for_each-All body [] h = tt
for_each-All body (x ∷ xs) h =
    let parts = &&-split (holds (body x)) (holds (for_each body xs)) h in
    (parts.0, for_each-All body xs parts.1)

pub connect_all-eq : (xs ys : List ℕ) → holds (connect_all xs ys) ≡ true → xs ≡ ys
unfolding connect_all
connect_all-eq [] [] h = refl
connect_all-eq [] (y ∷ ys) h = ground arith
connect_all-eq (x ∷ xs) [] h = ground arith
connect_all-eq (x ∷ xs) (y ∷ ys) h = ground (arith, ==_iff x y, connect_all-eq xs ys)

-- A loop over `0..n` that holds, at one of its rounds.
pub for_each-range :
    (body : ℕ → Circuit Done) (n i : ℕ)
    → holds (for_each body (range n)) ≡ true
    → i < n
    → holds (body i) ≡ true
for_each-range body n i h lt =
    All-range (λ j. holds (body j) ≡ true) n i (for_each-All body (range n) h) lt
