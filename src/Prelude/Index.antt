-- ===== src/Prelude/Index.antt =====
-- What is read at an index of a list built by `map` over a range, `resize`, `take` or `drop`.
use Prim.Native.Nat.{ℕ, zero, suc, ◌+◌, ◌<◌, ◌≤◌}
use mathlib.Core.Path.{◌≡◌, refl, ap, ◌∙◌}
use mathlib.Core.List.{List, [], ◌∷◌, ◌++◌, map, map-append}
use native.Mathlib.Omega.{arith}
use native.Mathlib.Decide.{dec_lt}
use dac_from_legacy_credenti.Prelude.Lists.{
  All, length, get_or, take, drop, resize, range, length-range, length-map, get_or-append_left,
  get_or-append_right,
}

pub get_or-map-range {ℓ} :
    {A : Type ℓ} (f : ℕ → A) (n i : ℕ) (d : A) → i < n → get_or (map f (range n)) i d ≡ f i
get_or-map-range f zero i d lt = absurd (omega arith)
get_or-map-range f (suc n) i d lt =
    let count = length-map f (range n) ∙ length-range n in
    rw (map-append f (range n) (n ∷ [])) (elim (dec_lt i n) [
      | yes below ↦
          get_or-append_left (map f (range n)) (f n ∷ []) i d (omega (arith, count))
          ∙ get_or-map-range f n i d below
      | no other ↦
          get_or-append_right (map f (range n)) (f n ∷ []) i 0 d (omega (arith, count))
          ∙ ap f (omega arith)
    ])

-- Nothing but the default stands beyond the end.
pub get_or-beyond {ℓ} :
    {A : Type ℓ} (xs : List A) (i : ℕ) (d : A) → length xs ≤ i → get_or xs i d ≡ d
get_or-beyond [] i d h = refl
get_or-beyond (x ∷ xs) zero d h = absurd (omega arith)
get_or-beyond (x ∷ xs) (suc i) d h = get_or-beyond xs i d (omega arith)

pub get_or-resize {ℓ} :
    {A : Type ℓ} (n : ℕ) (d : A) (xs : List A) (i : ℕ)
    → i < n
    → get_or (resize n d xs) i d ≡ get_or xs i d
get_or-resize zero d xs i lt = absurd (omega arith)
get_or-resize (suc n) d [] zero lt = refl
get_or-resize (suc n) d [] (suc i) lt = get_or-resize n d [] i (omega arith)
get_or-resize (suc n) d (x ∷ xs) zero lt = refl
get_or-resize (suc n) d (x ∷ xs) (suc i) lt = get_or-resize n d xs i (omega arith)

pub get_or-take {ℓ} :
    {A : Type ℓ} (n : ℕ) (xs : List A) (i : ℕ) (d : A)
    → i < n
    → get_or (take n xs) i d ≡ get_or xs i d
get_or-take zero xs i d lt = absurd (omega arith)
get_or-take (suc n) [] i d lt = refl
get_or-take (suc n) (x ∷ xs) zero d lt = refl
get_or-take (suc n) (x ∷ xs) (suc i) d lt = get_or-take n xs i d (omega arith)

pub get_or-drop {ℓ} :
    {A : Type ℓ} (n : ℕ) (xs : List A) (i : ℕ) (d : A)
    → get_or (drop n xs) i d ≡ get_or xs (n + i) d
get_or-drop zero xs i d = ap (λ j. get_or xs j d) (omega arith)
get_or-drop (suc n) [] i d = refl
get_or-drop (suc n) (x ∷ xs) i d =
    get_or-drop n xs i d
    ∙ ap (λ j. get_or (x ∷ xs) j d) (let e : suc (n + i) ≡ suc n + i = omega arith in e)

-- What holds at each index of the list holds at every member.
pub All-of_get_or {ℓ κ} :
    {A : Type ℓ} (P : A → Type κ) (xs : List A) (d : A)
    → ((i : ℕ) → i < length xs → P (get_or xs i d))
    → All P xs
All-of_get_or P [] d h = tt
All-of_get_or P (x ∷ xs) d h =
    (h 0 (omega arith), All-of_get_or P xs d (λ i lt. h (suc i) (omega arith)))

pub All-resize {ℓ κ} :
    {A : Type ℓ} (P : A → Type κ) (n : ℕ) (d : A) (xs : List A)
    → P d
    → All P xs
    → All P (resize n d xs)
All-resize P zero d xs p h = tt
All-resize P (suc n) d [] p h = (p, All-resize P n d [] p tt)
All-resize P (suc n) d (x ∷ xs) p h = (h.0, All-resize P n d xs p h.1)

pub All-join {ℓ κ} :
    {A : Type ℓ} (P : A → Type κ) (xs ys : List A) → All P xs → All P ys → All P (xs ++ ys)
All-join P [] ys h k = k
All-join P (x ∷ xs) ys h k = (h.0, All-join P xs ys h.1 k)

pub All-member {ℓ κ} :
    {A : Type ℓ} (P : A → Type κ) (xs : List A) (i : ℕ) (d : A)
    → All P xs
    → i < length xs
    → P (get_or xs i d)
All-member P [] i d h lt = absurd (omega (arith, lt))
All-member P (x ∷ xs) zero d h lt = h.0
All-member P (x ∷ xs) (suc i) d h lt = All-member P xs i d h.1 (omega (arith, lt))
