-- ===== src/Merkle/InCircuit/Binding.antt =====
-- Two lists of leaves with one root of src/utils/merkle.rs.
use dac_from_legacy_credenti.Prelude.{
  ℕ, zero, suc, ◌%◌, ◌^◌, ◌≡◌, ◌≢◌, ◌⊎◌, inl, inr, refl, sym, ap, ap₂, ◌∙◌, subst, List, [], ◌∷◌,
  ◌++◌, map, All, length, length-append, list_eq, list_eq_sound, list_eq_refl, Bool-cases, resize,
  arith,
}
use dac_from_legacy_credenti.Plonky2.Hash.{Hasher, num_hash_out_elts}
use dac_from_legacy_credenti.Merkle.InCircuit.{pair_level, root_of_leaves}
use dac_from_legacy_credenti.Merkle.InCircuit.Root.{
  double-pow, passes, length-pair_level, passes-root_of_leaves,
}

-- Two different inputs of eight elements with one digest.
pub record Collision (h : Hasher) : Type 0 where
  pub left : List ℕ
  pub right : List ℕ
  pub distinct : left ≢ right
  pub left_len : length left ≡ 8
  pub right_len : length right ≡ 8
  pub same_digest : h.hash_no_pad left ≡ h.hash_no_pad right

-- Every digest of a level has four elements.
abbrev pub Digests : List (List ℕ) → Type 0
Digests = All (λ d. length d ≡ num_hash_out_elts)

append-injective : (a b c d : List ℕ) → length a ≡ length c → a ++ b ≡ c ++ d → (a ≡ c) × (b ≡ d)
append-injective [] b [] d l e = (refl, e)
append-injective [] b (x ∷ c) d l e = absurd (omega arith)
append-injective (x ∷ a) b [] d l e = absurd (omega arith)
append-injective (x ∷ a) b (y ∷ c) d l e =
    let r = append-injective a b c d (omega arith) (cc) in (cc r.0, r.1)

module _ (h : Hasher) where
  -- One node: equal digests come from equal children, or collide.
  node-binding :
      (a b c d : List ℕ)
      → Digests (a ∷ b ∷ c ∷ d ∷ [])
      → h.hash_no_pad (a ++ b) ≡ h.hash_no_pad (c ++ d)
      → ((a ≡ c) × (b ≡ d)) ⊎ Collision h
  node-binding a b c d four e = elim (Bool-cases (list_eq (a ++ b) (c ++ d))) [
    | inl same ↦ inl (append-injective a b c d (omega arith) (list_eq_sound (a ++ b) (c ++ d) same))
    | inr other ↦ inr (record {
      left = a ++ b;
      right = c ++ d;
      distinct = λ p. cc (other, list_eq_refl (c ++ d), ap (λ x. list_eq x (c ++ d)) p);
      left_len = omega (arith, length-append a b);
      right_len = omega (arith, length-append c d);
      same_digest = e;
    })
  ]

  Digests-pair_level : (l : List (List ℕ)) → Digests l → Digests (pair_level h.hash_no_pad l)
  unfolding pair_level
  Digests-pair_level [] d = tt
  Digests-pair_level (a ∷ []) d = d
  Digests-pair_level (a ∷ b ∷ l) d = (h.length-hash_no_pad (a ++ b), Digests-pair_level l d.1.1)

  pair_level-binding :
      (l r : List (List ℕ))
      → Digests l
      → Digests r
      → length l % 2 ≡ 0
      → length l ≡ length r
      → pair_level h.hash_no_pad l ≡ pair_level h.hash_no_pad r
      → (l ≡ r) ⊎ Collision h
  unfolding pair_level
  pair_level-binding [] [] dl dr w e p = inl refl
  pair_level-binding [] (x ∷ r) dl dr w e p = absurd (omega arith)
  pair_level-binding (a ∷ []) r dl dr w e p = absurd (omega arith)
  pair_level-binding (a ∷ b ∷ l) [] dl dr w e p = absurd (omega arith)
  pair_level-binding (a ∷ b ∷ l) (c ∷ []) dl dr w e p = absurd (omega arith)
  pair_level-binding (a ∷ b ∷ l) (c ∷ d ∷ r) dl dr w e p =
      let head : (((a ≡ c) × (b ≡ d)) ⊎ Collision h) =
        node-binding a b c d (dl.0, (dl.1.0, (dr.0, (dr.1.0, tt)))) (cc) in
      let rest : ((l ≡ r) ⊎ Collision h) =
        pair_level-binding l r dl.1.1 dr.1.1 (omega arith) (omega arith) (cc) in
      elim head [
        | inr found ↦ inr found
        | inl (p, q) ↦ elim rest [ inr found ↦ inr found | inl t ↦ inl (cc (p, q, t)) ]
      ]

  passes-binding :
      (k : ℕ) (l r : List (List ℕ))
      → Digests l
      → Digests r
      → length l ≡ 2 ^ k
      → length l ≡ length r
      → passes h.hash_no_pad k l ≡ passes h.hash_no_pad k r
      → (l ≡ r) ⊎ Collision h
  unfolding passes
  passes-binding zero l r dl dr w e p = inl p
  passes-binding (suc k) l r dl dr w e p =
      let even : length l % 2 ≡ 0 = omega (arith, double-pow k) in
      let even' : length r % 2 ≡ 0 = omega arith in
      let ll = length-pair_level h.hash_no_pad l even in
      let lr = length-pair_level h.hash_no_pad r even' in
      elim (passes-binding k (pair_level h.hash_no_pad l) (pair_level h.hash_no_pad r)
        (Digests-pair_level l dl) (Digests-pair_level r dr) (omega (arith, double-pow k, ll))
        (omega (arith, ll, lr)) p) [
          | inr found ↦ inr found
          | inl q ↦ pair_level-binding l r dl dr even e q
        ]

  four_elements : (d : List ℕ) → length d ≡ num_hash_out_elts → resize num_hash_out_elts 0 d ≡ d
  four_elements [] e = absurd (omega arith)
  four_elements (a ∷ []) e = absurd (omega arith)
  four_elements (a ∷ b ∷ []) e = absurd (omega arith)
  four_elements (a ∷ b ∷ c ∷ []) e = absurd (omega arith)
  four_elements (a ∷ b ∷ c ∷ d ∷ []) e = refl
  four_elements (a ∷ b ∷ c ∷ d ∷ x ∷ r) e = absurd (omega arith)

  -- A leaf of four elements is its own digest.
  hash_or_noop-Digests : (l : List (List ℕ)) → Digests l → map h.hash_or_noop l ≡ l
  hash_or_noop-Digests [] d = refl
  hash_or_noop-Digests (leaf ∷ l) d =
      ap₂ ◌∷◌ (h.hash_or_noop_short leaf (omega arith) ∙ four_elements leaf d.0)
        (hash_or_noop-Digests l d.1)

  -- Two vectors of a power of two of four-element leaves with one in-circuit root are the same
  -- vector, or exhibit a collision of the hash.
  pub root_of_leaves-binding :
      (k : ℕ) (l r : List (List ℕ))
      → Digests l
      → Digests r
      → length l ≡ 2 ^ k
      → length r ≡ 2 ^ k
      → root_of_leaves h l ≡ root_of_leaves h r
      → (l ≡ r) ⊎ Collision h
  root_of_leaves-binding k l r dl dr el er e =
      let path = λ (m : List (List ℕ)) (d : Digests m) (n : length m ≡ 2 ^ k).
        ap (passes h.hash_no_pad k) (sym (hash_or_noop-Digests m d))
        ∙ passes-root_of_leaves h k m n in
      passes-binding k l r dl dr el (el ∙ sym er)
        (path l dl el ∙ ap (λ x. x ∷ []) e ∙ sym (path r dr er))

  Digests-passes : (k : ℕ) (l : List (List ℕ)) → Digests l → Digests (passes h.hash_no_pad k l)
  unfolding passes
  Digests-passes zero l d = d
  Digests-passes (suc k) l d =
      Digests-passes k (pair_level h.hash_no_pad l) (Digests-pair_level l d)

  -- The root has four elements.
  pub length-root_of_leaves :
      (k : ℕ) (l : List (List ℕ))
      → Digests l
      → length l ≡ 2 ^ k
      → length (root_of_leaves h l) ≡ num_hash_out_elts
  length-root_of_leaves k l d e =
      let level = sym (hash_or_noop-Digests l d) in
      let one = ap (passes h.hash_no_pad k) level ∙ passes-root_of_leaves h k l e in
      (subst Digests one (Digests-passes k l d)).0
