-- ===== src/Present/Witness/Elements.antt =====
-- Loops and vectors of field elements, from the prover's side: what makes each constraint hold.
use dac_from_legacy_credenti.Prelude.{
  ℕ, zero, suc, ◌+◌, ◌*◌, ◌^◌, ◌<◌, ◌≡◌, refl, sym, ap, ap₂, ◌∙◌, Bool, true, false, ◌&&◌, List, [],
  ◌∷◌, ◌++◌, map, at, get_or, length, length-map, length-append, length-range, range, ==_iff,
  if◌then◌else◌, All, All-map, All-get_or, dec_lt, get_or-append_left, get_or-append_right, arith,
}
use dac_from_legacy_credenti.Plonky2.Field.{Builder}
use dac_from_legacy_credenti.Plonky2.Hash.{Hasher, num_hash_out_elts}
use dac_from_legacy_credenti.Plonky2.Circuit.{Circuit, Done, holds, virtual_targets}
use dac_from_legacy_credenti.Plonky2.Satisfy.{All-for_each, All-are_elements}
use dac_from_legacy_credenti.Credential.Attribute.{Attribute, is_empty, to_u32_limbs_le}
use dac_from_legacy_credenti.Credential.Attribute.Limbs.{to_u32_limbs_le-bound}
use dac_from_legacy_credenti.Merkle.{
  attribute_to_hashed_leaf, attribute_to_field_elements, zero_leaf,
}
use dac_from_legacy_credenti.Delegate.{mask_leaf, virtual_leaves}
use dac_from_legacy_credenti.Present.Witness.{slice_of, generate_disclosed}

at-map : (f : ℕ → ℕ) (xs : List ℕ) (i : ℕ) → i < length xs → at (map f xs) i ≡ f (at xs i)
at-map f [] i lt = absurd (omega arith)
at-map f (x ∷ xs) zero lt = refl
at-map f (x ∷ xs) (suc i) lt = at-map f xs i (omega arith)

at-range : (n i : ℕ) → i < n → at (range n) i ≡ i
at-range zero i lt = absurd (omega arith)
at-range (suc n) i lt = elim (dec_lt i n) [
  | yes below ↦
      get_or-append_left (range n) (n ∷ []) i 0 (omega (arith, length-range n)) ∙ at-range n i below
  | no other ↦
      let last : i ≡ n = omega arith in
      get_or-append_right (range n) (n ∷ []) i 0 0 (omega (arith, length-range n)) ∙ sym last
]

pub at-slice_of :
    (pis : List ℕ) (start n i : ℕ) → i < n → at (slice_of pis start n) i ≡ at pis (start + i)
at-slice_of pis start n i lt =
    at-map (λ k. at pis (start + k)) (range n) i (omega (arith, length-range n))
    ∙ ap (λ k. at pis (start + k)) (at-range n i lt)

pub length-slice_of : (pis : List ℕ) (start n : ℕ) → length (slice_of pis start n) ≡ n
length-slice_of pis start n = length-map (λ k. at pis (start + k)) (range n) ∙ length-range n

module _ (b : Builder) where
  open b use {order}

  pub Elements-virtual_targets :
      (n : ℕ) (vs : List ℕ)
      → length vs ≡ n
      → All (λ v. v < order) vs
      → holds (virtual_targets b n vs) ≡ true
  unfolding virtual_targets
  Elements-virtual_targets n vs e a =
      ap₂ ◌&&◌ ((==_iff (length vs) n).1 e) (All-are_elements b vs a)

  Elements-append :
      (xs ys : List ℕ)
      → All (λ v. v < order) xs
      → All (λ v. v < order) ys
      → All (λ v. v < order) (xs ++ ys)
  Elements-append [] ys a c = c
  Elements-append (x ∷ xs) ys a c = (a.0, Elements-append xs ys a.1 c)

  pub Elements-slice_of :
      (pis : List ℕ) (start n : ℕ)
      → All (λ v. v < order) pis
      → All (λ v. v < order) (slice_of pis start n)
  Elements-slice_of pis start n a = go (range n)
    where
      go : (is : List ℕ) → All (λ v. v < order) (map (λ i. at pis (start + i)) is)
      go [] = tt
      go (i ∷ is) =
          (All-get_or (λ v. v < order) pis (start + i) 0 a (omega (arith, b.u32_lt_order)), go is)

  -- A slot's leaf: four field elements.
  abbrev pub IsLeaf : List ℕ → Type 0
  IsLeaf leaf = (length leaf ≡ 4) × All (λ v. v < order) leaf

  mask_leaf-IsLeaf : (leaf : List ℕ) (keep : Bool) → IsLeaf leaf → IsLeaf (mask_leaf b leaf keep)
  unfolding mask_leaf
  mask_leaf-IsLeaf leaf keep l = (length-map (λ e. b.select keep e 0) leaf ∙ l.0, go keep leaf l.1)
    where
      go :
          (k : Bool) (xs : List ℕ)
          → All (λ v. v < order) xs
          → All (λ v. v < order) (map (λ e. b.select k e 0) xs)
      go k [] a = tt
      go true (x ∷ xs) a = (omega (arith, a.0, b.select_true x 0), go true xs a.1)
      go false (x ∷ xs) a = (omega (arith, b.u32_lt_order, b.select_false x 0), go false xs a.1)

  pub generate_disclosed-Elements :
      (leaves : List (List ℕ)) (reveal : List Bool)
      → All IsLeaf leaves
      → length reveal ≡ length leaves
      → (length (generate_disclosed b leaves reveal) ≡ length leaves * 4)
        × All (λ v. v < order) (generate_disclosed b leaves reveal)
  unfolding generate_disclosed
  generate_disclosed-Elements [] reveal a e = (refl, tt)
  generate_disclosed-Elements (leaf ∷ leaves) [] a e = absurd (omega arith)
  generate_disclosed-Elements (leaf ∷ leaves) (keep ∷ reveal) a e =
      let here = mask_leaf-IsLeaf leaf keep a.0 in
      let rest = generate_disclosed-Elements leaves reveal a.1 (omega arith) in
      (
        omega (
          arith,
          length-append (mask_leaf b leaf keep) (generate_disclosed b leaves reveal),
          here.0,
          rest.0,
        ),
        Elements-append (mask_leaf b leaf keep) (generate_disclosed b leaves reveal) here.1 rest.1,
      )

  pub generate_disclosed-at :
      (leaves : List (List ℕ)) (reveal : List Bool) (i j : ℕ)
      → All IsLeaf leaves
      → length reveal ≡ length leaves
      → i < length leaves
      → j < 4
      → at (generate_disclosed b leaves reveal) (i * 4 + j)
        ≡ b.select (get_or reveal i false) (at (get_or leaves i []) j) 0
  unfolding generate_disclosed mask_leaf
  generate_disclosed-at [] reveal i j a e li lj = absurd (omega arith)
  generate_disclosed-at (leaf ∷ leaves) [] i j a e li lj = absurd (omega arith)
  generate_disclosed-at (leaf ∷ leaves) (keep ∷ reveal) zero j a e li lj =
      let f : ℕ → ℕ = λ x. b.select keep x 0 in
      let four = length-map f leaf ∙ a.0.0 in
      ap (at (map f leaf ++ generate_disclosed b leaves reveal)) (omega arith)
      ∙ get_or-append_left (map f leaf) (generate_disclosed b leaves reveal) j 0
          (omega (arith, four))
      ∙ at-map f leaf j (omega (arith, a.0.0))
  generate_disclosed-at (leaf ∷ leaves) (keep ∷ reveal) (suc i) j a e li lj =
      let f : ℕ → ℕ = λ x. b.select keep x 0 in
      let four = length-map f leaf ∙ a.0.0 in
      get_or-append_right (map f leaf) (generate_disclosed b leaves reveal) (suc i * 4 + j)
        (i * 4 + j) 0 (omega (arith, four))
      ∙ generate_disclosed-at leaves reveal i j a.1 (omega arith) (omega arith) lj

  pub virtual_leaves-IsLeaf :
      (n : ℕ) (leaves : List (List ℕ))
      → length leaves ≡ n
      → All IsLeaf leaves
      → holds (virtual_leaves b n leaves) ≡ true
  unfolding virtual_leaves
  virtual_leaves-IsLeaf n leaves e a =
      let body : List ℕ → Circuit Done =
        λ leaf. (tt, holds (virtual_targets b num_hash_out_elts leaf)) in
      let each = All-for_each body leaves (
        All-map IsLeaf (λ leaf. holds (body leaf) ≡ true) leaves
          (λ leaf l. Elements-virtual_targets 4 leaf l.0 l.1) a) in
      ground (arith, (==_iff (length leaves) n).1 e)

  pub attribute_to_hashed_leaf-IsLeaf :
      (h : Hasher) (attrs : List Attribute)
      → ((xs : List ℕ) → All (λ v. v < order) xs → All (λ v. v < order) (h.hash_or_noop xs))
      → All (λ a. All (λ x. x < 256) a.bytes) attrs
      → All IsLeaf (map (attribute_to_hashed_leaf h) attrs)
  unfolding attribute_to_hashed_leaf attribute_to_field_elements
  attribute_to_hashed_leaf-IsLeaf h [] els octets = tt
  attribute_to_hashed_leaf-IsLeaf h (a ∷ attrs) els octets =
      (choose (is_empty a), attribute_to_hashed_leaf-IsLeaf h attrs els octets.1)
    where
      limbs : All (λ v. v < order) (to_u32_limbs_le a)
      limbs =
          All-map (λ v. v < 2 ^ 32) (λ v. v < order) (to_u32_limbs_le a)
            (λ v lt. omega (arith, b.u32_lt_order)) (to_u32_limbs_le-bound a octets.0)

      choose : (c : Bool) → IsLeaf (if c then zero_leaf else h.hash_or_noop (to_u32_limbs_le a))
      choose true = (refl, omega (arith, b.u32_lt_order))
      choose false = (h.length-hash_or_noop (to_u32_limbs_le a), els (to_u32_limbs_le a) limbs)
