-- ===== src/Credential/Attribute/Limbs.antt =====
-- The packing of an attribute into limbs, and what it loses.
use dac_from_legacy_credenti.Prelude.{
  All-get_or, get_or, ◌^◌, ◌/◌, ◌-◌, ◌*◌, range, map, ℕ, suc, ◌+◌, ◌-◌, ◌*◌, ◌/◌, ◌%◌, ◌<◌, ◌≡◌,
  refl, sym, ap, ap₂, ◌∙◌, List, [], ◌∷◌, ◌++◌, All, length, get_or, range, map-range, length-range,
  length-map, append-last-injective, arith,
}
use mathlib.Core.List.{map-append}
use dac_from_legacy_credenti.Credential.Attribute.{
  Attribute, IsValid, from_be_bytes, word_at, limbs_of, to_u32_limbs_le,
}

from_be_bytes-injective :
    (a b c d a' b' c' d' : ℕ)
    → All (λ x. x < 256) (a ∷ b ∷ c ∷ d ∷ [])
    → All (λ x. x < 256) (a' ∷ b' ∷ c' ∷ d' ∷ [])
    → from_be_bytes a b c d ≡ from_be_bytes a' b' c' d'
    → (a ≡ a') × (b ≡ b') × (c ≡ c') × (d ≡ d')
unfolding from_be_bytes
from_be_bytes-injective a b c d a' b' c' d' h h' e = omega arith

get_or-skip :
    (a b c d : ℕ) (r : List ℕ) (k i : ℕ) → i ≡ 4 + k → get_or (a ∷ b ∷ c ∷ d ∷ r) i 0 ≡ get_or r k 0
get_or-skip a b c d r k i e =
    ap (λ j. get_or (a ∷ b ∷ c ∷ d ∷ r) j 0)
      (let f : i ≡ suc (suc (suc (suc k))) = omega arith in f)

pub word_at-skip :
    (a b c d : ℕ) (r : List ℕ) (k i : ℕ) → i ≡ 4 + k → word_at (a ∷ b ∷ c ∷ d ∷ r) i ≡ word_at r k
unfolding word_at
word_at-skip a b c d r k i e = rw (
  get_or-skip a b c d r k i e,
  get_or-skip a b c d r (k + 1) (i + 1) (omega arith),
  get_or-skip a b c d r (k + 2) (i + 2) (omega arith),
  get_or-skip a b c d r (k + 3) (i + 3) (omega arith),
)

word_at-head :
    (a b c d : ℕ) (r : List ℕ) (i : ℕ)
    → i ≡ 0
    → word_at (a ∷ b ∷ c ∷ d ∷ r) i ≡ from_be_bytes a b c d
unfolding word_at
word_at-head a b c d r i e = rw e refl

-- The first four bytes give the last limb.
limbs_of-cons :
    (a b c d : ℕ) (r : List ℕ)
    → length r % 4 ≡ 0
    → limbs_of (a ∷ b ∷ c ∷ d ∷ r) ≡ limbs_of r ++ (from_be_bytes a b c d ∷ [])
unfolding limbs_of
limbs_of-cons a b c d r h =
    let bytes = a ∷ b ∷ c ∷ d ∷ r in
    let f : ℕ → ℕ = λ i. word_at bytes (length bytes - (i + 1) * 4) in
    let g : ℕ → ℕ = λ i. word_at r (length r - (i + 1) * 4) in
    let n = length r / 4 in
    let count : length bytes / 4 ≡ suc n = omega arith in
    rw count (
      map-append f (range n) (n ∷ [])
      ∙ ap₂ (λ xs x. xs ++ (x ∷ []))
          (map-range f g n (λ i lt.
            word_at-skip a b c d r (length r - (i + 1) * 4) (length bytes - (i + 1) * 4)
              (omega arith)))
          (word_at-head a b c d r (length bytes - (n + 1) * 4) (omega arith)))

length-limbs_of : (bytes : List ℕ) → length (limbs_of bytes) ≡ length bytes / 4
unfolding limbs_of
length-limbs_of bytes = length-map _ (range (length bytes / 4)) ∙ length-range (length bytes / 4)

-- Byte strings of one length, a multiple of 4, with the same limbs are the same.
limbs_of-injective :
    (xs ys : List ℕ)
    → length xs % 4 ≡ 0
    → length ys ≡ length xs
    → All (λ b. b < 256) xs
    → All (λ b. b < 256) ys
    → limbs_of xs ≡ limbs_of ys
    → xs ≡ ys
limbs_of-injective [] [] w l hx hy e = refl
limbs_of-injective [] (y ∷ ys) w l hx hy e = absurd (omega arith)
limbs_of-injective (a ∷ []) ys w l hx hy e = absurd (omega arith)
limbs_of-injective (a ∷ b ∷ []) ys w l hx hy e = absurd (omega arith)
limbs_of-injective (a ∷ b ∷ c ∷ []) ys w l hx hy e = absurd (omega arith)
limbs_of-injective (a ∷ b ∷ c ∷ d ∷ xs) [] w l hx hy e = absurd (omega arith)
limbs_of-injective (a ∷ b ∷ c ∷ d ∷ xs) (a' ∷ []) w l hx hy e = absurd (omega arith)
limbs_of-injective (a ∷ b ∷ c ∷ d ∷ xs) (a' ∷ b' ∷ []) w l hx hy e = absurd (omega arith)
limbs_of-injective (a ∷ b ∷ c ∷ d ∷ xs) (a' ∷ b' ∷ c' ∷ []) w l hx hy e = absurd (omega arith)
limbs_of-injective (a ∷ b ∷ c ∷ d ∷ xs) (a' ∷ b' ∷ c' ∷ d' ∷ ys) w l hx hy e =
    let wx : length xs % 4 ≡ 0 = omega arith in
    let wy : length ys % 4 ≡ 0 = omega arith in
    let len : length ys ≡ length xs = omega arith in
    let joined = sym (limbs_of-cons a b c d xs wx) ∙ e ∙ limbs_of-cons a' b' c' d' ys wy in
    let parts =
      append-last-injective (limbs_of xs) (limbs_of ys)
        (omega (arith, length-limbs_of xs, length-limbs_of ys)) joined in
    let rest = limbs_of-injective xs ys wx len hx.1.1.1.1 hy.1.1.1.1 parts.0 in
    let word =
      from_be_bytes-injective a b c d a' b' c' d' (hx.0, (hx.1.0, (hx.1.1.0, (hx.1.1.1.0, tt))))
        (hy.0, (hy.1.0, (hy.1.1.0, (hy.1.1.1.0, tt)))) parts.1 in
    cc (rest, word.0, word.1, word.2, word.3)

-- Two valid attributes of one length that pack into the same limbs are the same attribute.
pub to_u32_limbs_le-injective :
    (a b : Attribute)
    → IsValid a
    → IsValid b
    → length a.bytes ≡ length b.bytes
    → to_u32_limbs_le a ≡ to_u32_limbs_le b
    → a ≡ b
unfolding to_u32_limbs_le
to_u32_limbs_le-injective a b va vb l e =
    ap (λ (x : List ℕ). record { bytes = x })
      (limbs_of-injective a.bytes b.bytes va.words (sym l) va.octets vb.octets e)

-- The limbs of bytes are `u32`s.
pub to_u32_limbs_le-bound :
    (a : Attribute) → All (λ x. x < 256) a.bytes → All (λ limb. limb < 2 ^ 32) (to_u32_limbs_le a)
unfolding to_u32_limbs_le limbs_of word_at from_be_bytes
to_u32_limbs_le-bound a octets = go (range (length a.bytes / 4))
  where
    byte : (i : ℕ) → get_or a.bytes i 0 < 256
    byte i = All-get_or (λ x. x < 256) a.bytes i 0 octets (omega arith)

    go :
        (is : List ℕ)
        → All (λ limb. limb < 2 ^ 32) (map (λ i. word_at a.bytes (length a.bytes - (i + 1) * 4)) is)
    go [] = tt
    go (i ∷ is) =
        let start = length a.bytes - (i + 1) * 4 in
        (omega (arith, byte start, byte (start + 1), byte (start + 2), byte (start + 3)), go is)
