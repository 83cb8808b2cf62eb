-- ===== src/Sample/Hash.antt =====
-- A toy hash of the library's shape: a digest of four elements, and Merkle roots by halves.
use native.Mathlib.Nat.{one-le-pow}
use native.Mathlib.Nat.{mod-lt}
use dac_from_legacy_credenti.Prelude.{
  All, true, false, ◌<◌, Bool, ℕ, zero, suc, ◌+◌, ◌-◌, ◌*◌, ◌/◌, ◌%◌, ◌^◌, ◌≤◌, ◌≡◌, refl, ap, ap₂,
  ◌∙◌, List, [], ◌∷◌, ◌++◌, length, leb, take, drop, resize, length-append, length-take,
  length-drop, length-resize, if◌then◌else◌, arith,
}
use dac_from_legacy_credenti.Plonky2.Hash.{Hasher}
use dac_from_legacy_credenti.Sample.Prime.{prime}

-- A polynomial in the elements, at 31.
unfoldable pub toy_digest : List ℕ → ℕ
toy_digest [] = 7
toy_digest (x ∷ xs) = (31 * toy_digest xs + x) % prime

unfoldable pub toy_hash : List ℕ → List ℕ
toy_hash xs = toy_digest xs ∷ length xs % prime ∷ 1 ∷ 2 ∷ []

unfoldable pub toy_hash_or_noop : List ℕ → List ℕ
toy_hash_or_noop xs = if leb (length xs) 4 then resize 4 0 xs else toy_hash xs

pub length-toy_hash_or_noop : (xs : List ℕ) → length (toy_hash_or_noop xs) ≡ 4
unfolding toy_hash_or_noop toy_hash
length-toy_hash_or_noop xs = ground (arith, length-resize 4 0 xs)

pub toy_hash_or_noop_short : (xs : List ℕ) → length xs ≤ 4 → toy_hash_or_noop xs ≡ resize 4 0 xs
unfolding toy_hash_or_noop
toy_hash_or_noop_short xs h = ground arith

unfoldable pub toy_root : ℕ → List (List ℕ) → List ℕ
toy_root fuel [] = []
toy_root fuel (leaf ∷ []) = toy_hash_or_noop leaf
toy_root zero (x ∷ y ∷ rest) = []
toy_root (suc fuel) (x ∷ y ∷ rest) =
    let leaves = x ∷ y ∷ rest in
    let half = length leaves / 2 in
    toy_hash (toy_root fuel (take half leaves) ++ toy_root fuel (drop half leaves))

toy_root_fuel :
    (f g : ℕ) (leaves : List (List ℕ))
    → length leaves ≤ f
    → length leaves ≤ g
    → toy_root f leaves ≡ toy_root g leaves
unfolding toy_root
toy_root_fuel f g [] hf hg = refl
toy_root_fuel f g (leaf ∷ []) hf hg = refl
toy_root_fuel zero g (x ∷ y ∷ rest) hf hg = absurd (omega arith)
toy_root_fuel (suc f) zero (x ∷ y ∷ rest) hf hg = absurd (omega arith)
toy_root_fuel (suc f) (suc g) (x ∷ y ∷ rest) hf hg =
    let leaves = x ∷ y ∷ rest in
    let half = length leaves / 2 in
    let l = length-take half leaves in
    let r = length-drop half leaves in
    ap₂ (λ a b. toy_hash (a ++ b))
      (toy_root_fuel f g (take half leaves) (omega arith) (omega arith))
      (toy_root_fuel f g (drop half leaves) (omega arith) (omega arith))

take-append : {A : Type 0} (xs ys : List A) → take (length xs) (xs ++ ys) ≡ xs
take-append [] ys = refl
take-append (x ∷ xs) ys = ap (λ t. x ∷ t) (take-append xs ys)

pub drop-append : {A : Type 0} (xs ys : List A) → drop (length xs) (xs ++ ys) ≡ ys
drop-append [] ys = refl
drop-append (x ∷ xs) ys = drop-append xs ys

toy_root_split :
    (fuel half : ℕ) (leaves : List (List ℕ))
    → 2 ≤ length leaves
    → half ≡ length leaves / 2
    → toy_root (suc fuel) leaves
      ≡ toy_hash (toy_root fuel (take half leaves) ++ toy_root fuel (drop half leaves))
unfolding toy_root
toy_root_split fuel half [] h e = absurd (omega arith)
toy_root_split fuel half (x ∷ []) h e = absurd (omega arith)
toy_root_split fuel half (x ∷ y ∷ rest) h e = rw e refl

pub toy_root_node :
    (k : ℕ) (left right : List (List ℕ))
    → length left ≡ length right
    → length left ≡ 2 ^ k
    → toy_root (length (left ++ right)) (left ++ right)
      ≡ toy_hash (toy_root (length left) left ++ toy_root (length right) right)
toy_root_node k left right same power =
    let l = length-append left right in
    let some = one-le-pow k 2 (omega arith) in
    let n = length left in
    let fuel = n + n - 1 in
    let total : length (left ++ right) ≡ suc fuel = omega arith in
    rw total (
      toy_root_split fuel n (left ++ right) (omega arith) (omega arith)
      ∙ ap₂ (λ a b. toy_hash (toy_root fuel a ++ toy_root fuel b)) (take-append left right)
          (drop-append left right)
      ∙ ap₂ (λ a b. toy_hash (a ++ b)) (toy_root_fuel fuel n left (omega arith) (omega arith))
          (toy_root_fuel fuel (length right) right (omega arith) (omega arith)))

pub length-toy_hash : (xs : List ℕ) → length (toy_hash xs) ≡ 4
unfolding toy_hash
length-toy_hash xs = refl

pub toy_root_leaf : (leaf : List ℕ) → toy_root 1 (leaf ∷ []) ≡ toy_hash_or_noop leaf
unfolding toy_root
toy_root_leaf leaf = refl

abbrev pub toy : Hasher
toy = record {
  hash_no_pad = toy_hash;
  length-hash_no_pad = length-toy_hash;
  hash_or_noop = toy_hash_or_noop;
  length-hash_or_noop = length-toy_hash_or_noop;
  hash_or_noop_short = toy_hash_or_noop_short;
  merkle_tree_root = λ leaves. toy_root (length leaves) leaves;
  merkle_tree_root_leaf = toy_root_leaf;
  merkle_tree_root_node = toy_root_node;
}

-- Field elements hash to field elements.
toy_digest-lt : (xs : List ℕ) → toy_digest xs < prime
unfolding toy_digest
toy_digest-lt [] = omega arith
toy_digest-lt (x ∷ xs) = mod-lt (31 * toy_digest xs + x) (omega arith)

All-resize : (n : ℕ) (xs : List ℕ) → All (λ v. v < prime) xs → All (λ v. v < prime) (resize n 0 xs)
All-resize zero xs a = tt
All-resize (suc n) [] a = (omega arith, All-resize n [] tt)
All-resize (suc n) (x ∷ xs) a = (a.0, All-resize n xs a.1)

pub toy_hash_or_noop-All :
    (xs : List ℕ) → All (λ v. v < prime) xs → All (λ v. v < prime) (toy_hash_or_noop xs)
unfolding toy_hash_or_noop toy_hash
toy_hash_or_noop-All xs a = choose (leb (length xs) 4)
  where
    choose : (c : Bool) → All (λ v. v < prime) (if c then resize 4 0 xs else toy_hash xs)
    choose true = All-resize 4 xs a
    choose false =
        (toy_digest-lt xs, (mod-lt (length xs) (omega arith), (omega arith, (omega arith, tt))))
