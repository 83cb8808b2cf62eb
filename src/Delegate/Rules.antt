-- ===== src/Delegate/Rules.antt =====
-- What each rule of the delegation circuit enforces over the numbers.
use native.Mathlib.Nat.{mod-eq_of_lt, add-mod_right}
use dac_from_legacy_credenti.Prelude.{
  at, ℕ, ◌+◌, ◌-◌, ◌%◌, ◌^◌, ◌≤◌, ◌<◌, ◌≡◌, refl, ap, ◌∙◌, ◌↔◌, ◌⊎◌, inl, inr, Bool, true, false,
  List, if◌then◌else◌, ◌==◌, ◌&&◌, ==_iff, &&-split, dec_lt, arith,
}
use dac_from_legacy_credenti.Plonky2.Field.{Builder}
use dac_from_legacy_credenti.Plonky2.Hash.{num_hash_out_elts}
use dac_from_legacy_credenti.Plonky2.Circuit.{
  Circuit, Done, holds, connect, for_each-range, range_checked,
}
use dac_from_legacy_credenti.Layout.{BasePublicInputLayout}
use dac_from_legacy_credenti.Delegate.{
  in_commitment, forward_pis, level_rule, cap_rule, digest_rule, commitment_rule,
}

-- What `builder.select` returns.
pub select-if : (b : Builder) (c : Bool) (x y : ℕ) → b.select c x y ≡ (if c then x else y)
select-if b true x y = b.select_true x y
select-if b false x y = b.select_false x y

pub select-at :
    (b : Builder) (c : Bool) (xs ys : List ℕ) (i : ℕ)
    → b.select c (at xs i) (at ys i) ≡ at (if c then xs else ys) i
select-at b true xs ys i = b.select_true (at xs i) (at ys i)
select-at b false xs ys i = b.select_false (at xs i) (at ys i)

module _ (b : Builder) where
  open b use {order}

  -- A difference of two field elements, as a number.
  sub-cases :
      (x y : ℕ)
      → x < order
      → y < order
      → ((y ≤ x) × (b.sub x y ≡ x - y)) ⊎ ((x < y) × (b.sub x y ≡ x + order - y))
  sub-cases x y hx hy = elim (dec_lt x y) [
    | yes less ↦ inr (less, b.sub_lem x y hx hy ∙ mod-eq_of_lt (omega arith))
    | no other ↦
        let move : x + order - y ≡ (x - y) + order = omega arith in
        inl (
          omega arith,
          b.sub_lem x y hx hy
              ∙ ap (λ n. n % order) move
              ∙ add-mod_right (x - y) order
              ∙ mod-eq_of_lt (omega arith),
        )
  ]

  range_checked-lt : (x bits : ℕ) → holds (range_checked b x bits) ≡ true → x < 2 ^ bits
  unfolding range_checked
  range_checked-lt x bits h = (b.range_check_iff x bits).0 h

  lt-range_checked : (x bits : ℕ) → x < 2 ^ bits → holds (range_checked b x bits) ≡ true
  unfolding range_checked
  lt-range_checked x bits h = (b.range_check_iff x bits).1 h

  -- The depth-cap rule, over field elements, holds exactly when the cap is a byte, is at most the
  -- parent's and at most 255 below it, and the level is at most the cap or is one of the negative
  -- field elements above `cap - 256`. Taken alone, a step admits those.
  pub cap_rule_iff :
      (level max_level prev_max_level : ℕ)
      → level < order
      → max_level < order
      → prev_max_level < order
      → (holds (cap_rule b level max_level prev_max_level) ≡ true) ↔ (
          (max_level < 256)
          × (max_level ≤ prev_max_level)
          × (prev_max_level < max_level + 256)
          × ((level ≤ max_level) ⊎ (order + max_level < level + 256)))
  unfolding cap_rule range_checked
  cap_rule_iff l m p hl hm hp = (forward, backward)
    where
      forward :
          holds (cap_rule b l m p) ≡ true
          → (m < 256) × (m ≤ p) × (p < m + 256) × ((l ≤ m) ⊎ (order + m < l + 256))
      forward h =
          let first =
            &&-split (b.range_check m 8)
              (b.range_check (b.sub m l) 8 && b.range_check (b.sub p m) 8) h in
          let second =
            &&-split (b.range_check (b.sub m l) 8) (b.range_check (b.sub p m) 8) first.1 in
          let small = (b.range_check_iff m 8).0 first.0 in
          let head = (b.range_check_iff (b.sub m l) 8).0 second.0 in
          let tight = (b.range_check_iff (b.sub p m) 8).0 second.1 in
          (
            omega arith,
            omega (arith, b.u32_lt_order, sub-cases p m hp hm),
            omega (arith, b.u32_lt_order, sub-cases p m hp hm),
            elim (sub-cases m l hm hl) [ inl (le, _) ↦ inl le | inr (lt, e) ↦ inr (omega arith) ],
          )

      backward :
          (m < 256) × (m ≤ p) × (p < m + 256) × ((l ≤ m) ⊎ (order + m < l + 256))
          → holds (cap_rule b l m p) ≡ true
      backward (small, tight, near, bound) =
          let one = (b.range_check_iff m 8).1 (omega arith) in
          let two =
            (b.range_check_iff (b.sub m l) 8).1
              (omega (arith, b.u32_lt_order, sub-cases m l hm hl)) in
          let three =
            (b.range_check_iff (b.sub p m) 8).1
              (omega (arith, b.u32_lt_order, sub-cases p m hp hm)) in
          rw (one, two, three) refl

  pub is_equal-== : (x y : ℕ) → b.is_equal x y ≡ (x == y)
  is_equal-== x y = ground (arith, b.is_equal_iff x y, ==_iff x y)

  -- Every public input but commitment, level and cap is the previous proof's.
  pub forward_pis-eq :
      (layout : BasePublicInputLayout) (c : Bool) (outer wrapper inner : List ℕ)
      → holds (forward_pis b layout c outer wrapper inner) ≡ true
      → (i : ℕ) → i < layout.level_pi_idx
      → in_commitment layout i ≡ false
      → at outer i ≡ at (if c then wrapper else inner) i
  unfolding forward_pis
  forward_pis-eq layout c outer wrapper inner h i lt away =
      let each = for_each-range _ layout.level_pi_idx i h lt in
      let joined : at outer i ≡ b.select c (at wrapper i) (at inner i) = ground arith in
      joined ∙ select-at b c wrapper inner i

  -- The level is one more than the previous one, in the field.
  pub level_rule-eq :
      (level prev : ℕ) → holds (level_rule b level prev) ≡ true → level ≡ (prev + 1) % order
  unfolding level_rule
  level_rule-eq level prev h = (==_iff level (b.add prev 1)).0 h ∙ b.add_lem prev 1

  -- The wrapper digest is the wrapper key's at the first step, and handed on later.
  pub digest_rule-eq :
      (c : Bool) (digest vk_digest : List ℕ) (start : ℕ) (inner : List ℕ)
      → holds (digest_rule b c digest vk_digest start inner) ≡ true
      → (j : ℕ) → j < num_hash_out_elts
      → at digest j ≡ (if c then at vk_digest j else at inner (start + j))
  unfolding digest_rule
  digest_rule-eq c digest vk_digest start inner h j lt =
      let body : ℕ → Circuit Done =
        λ k. connect (at digest k) (b.select c (at vk_digest k) (at inner (start + k))) in
      let each = for_each-range body num_hash_out_elts j h lt in
      (==_iff (at digest j) (b.select c (at vk_digest j) (at inner (start + j)))).0 each
      ∙ select-if b c (at vk_digest j) (at inner (start + j))

  pub commitment_rule-eq :
      (start len : ℕ) (root : List ℕ) (pi : ℕ → ℕ)
      → holds (commitment_rule b start len root pi) ≡ true
      → (i : ℕ) → i < len
      → at root i ≡ pi (start + i)
  unfolding commitment_rule
  commitment_rule-eq start len root pi h i lt =
      (==_iff (at root i) (pi (start + i))).0 (for_each-range _ len i h lt)
