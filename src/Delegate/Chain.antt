-- ===== src/Delegate/Chain.antt =====
-- Chains of delegation: what a genuine proof at any level says of the credential that it began with.
use dac_from_legacy_credenti.Prelude.{
  at, ℕ, zero, suc, ◌+◌, ◌%◌, ◌≤◌, ◌<◌, ◌≡◌, sym, ap, subst, ◌∙◌, ◌⊎◌, inl, inr, ℕ_discrete, dec_lt,
  arith,
}
use native.Mathlib.Nat.{mod-eq_of_lt, mod_self}
use dac_from_legacy_credenti.Plonky2.Field.{Builder}
use dac_from_legacy_credenti.Plonky2.Hash.{Hasher}
use dac_from_legacy_credenti.Plonky2.Recursion.{Recursion, VerifierData}
use dac_from_legacy_credenti.Layout.{BasePublicInputLayout, base_pi_count}
use dac_from_legacy_credenti.Delegate.Step.{previous_pis}
use dac_from_legacy_credenti.Delegate.Genuine.{
  IsLayout, Extracts, IsGenuine, level_of, cap_of, Opened, IsGenuine-Opened, Opened-FromInner,
}

module _ (b : Builder) (h : Hasher) (r : Recursion) (layout : BasePublicInputLayout)
    (wf : IsLayout layout) (vk : VerifierData) (extracts : Extracts b h r layout vk) where
  abbrev pub level : r.Proof → ℕ
  level p = level_of b h r layout wf vk extracts p

  abbrev pub cap : r.Proof → ℕ
  cap p = cap_of b h r layout wf vk extracts p

  abbrev pub open_step : (p : r.Proof) → IsGenuine r vk p → Opened b h r layout wf vk extracts p
  open_step p g = IsGenuine-Opened b h r layout wf vk extracts p g

  -- Level and cap of a genuine proof, and how the previous level enters.
  pub record Levels (p : r.Proof) (o : Opened b h r layout wf vk extracts p) : Type 0 where
    pub level_is : at o.targets.outer_pis layout.level_pi_idx ≡ level p
    pub cap_is : at o.targets.outer_pis layout.max_level_pi_idx ≡ cap p
    pub element : level p < b.order
    pub small : cap p < 256
    pub bound : (level p ≤ cap p) ⊎ (b.order + cap p < level p + 256)
    pub tightens : cap p ≤ at (previous_pis b h r layout o.targets) layout.max_level_pi_idx
    pub up :
        ((level p ≡ at (previous_pis b h r layout o.targets) layout.level_pi_idx + 1)
          × (at (previous_pis b h r layout o.targets) layout.level_pi_idx + 1 < b.order))
        ⊎ ((level p ≡ 0)
            × (at (previous_pis b h r layout o.targets) layout.level_pi_idx + 1 ≡ b.order))

  pub Opened-Levels : (p : r.Proof) (o : Opened b h r layout wf vk extracts p) → Levels p o
  unfolding base_pi_count
  Opened-Levels p o =
      let s = o.step in
      let l = o.reads layout.level_pi_idx (omega (arith, wf.cap_next)) in
      let c = o.reads layout.max_level_pi_idx (omega arith) in
      let prev = at (previous_pis b h r layout o.targets) layout.level_pi_idx in
      record {
        level_is = l;
        cap_is = c;
        element = subst (λ x. x < b.order) l s.level_element;
        small = subst (λ x. x < 256) c s.cap_small;
        bound = omega (arith, s.level_bound, l, c);
        tightens = omega (arith, s.cap_tightens, c);
        up = elim (dec_lt (prev + 1) b.order) [
          | yes inside ↦ inl (sym l ∙ s.level_up ∙ mod-eq_of_lt inside, inside)
          | no outside ↦
              let edge : prev + 1 ≡ b.order = omega (arith, s.previous_element) in
              inr (sym l ∙ s.level_up ∙ ap (λ x. x % b.order) edge ∙ mod_self b.order, edge)
        ];
      }

  -- The negative levels that one step admits have no proof: they would go down for ever, and a
  -- level below `cap - 255` is refused.
  not-negative :
      (n : ℕ) (p : r.Proof)
      → IsGenuine r vk p
      → b.order + cap p < level p + 256
      → level p + 256 ≤ b.order + n
      → ⊥
  not-negative zero p g high near = absurd (omega arith)
  not-negative (suc n) p g high near =
      let o = open_step p g in
      let q = o.targets.inner_proof in
      let ls = Opened-Levels p o in
      let from =
        Opened-FromInner b h r layout wf vk extracts p o
          (λ e. omega (arith, b.u32_lt_order, ls.level_is)) in
      let at_inner = ap (λ xs. at xs layout.level_pi_idx) from.previous in
      let before = Opened-Levels q (open_step q from.inner_genuine) in
      let down : level p ≡ level q + 1 = omega (arith, ls.up, at_inner, b.u32_lt_order) in
      elim before.bound [
        | inl low ↦ omega (arith, down, before.small, b.u32_lt_order)
        | inr still ↦
            not-negative n q from.inner_genuine (omega (arith, before.cap_is, still))
              (omega (arith, down))
      ]

  -- For a layout with the cap after the level, and if what verifies under the delegation key has a
  -- satisfying assignment, the level of every genuine proof is at least 1 and at most its cap,
  -- which is a byte.
  pub IsGenuine-levels :
      (p : r.Proof)
      → IsGenuine r vk p
      → (1 ≤ level_of b h r layout wf vk extracts p)
        × (level_of b h r layout wf vk extracts p ≤ cap_of b h r layout wf vk extracts p)
        × (cap_of b h r layout wf vk extracts p < 256)
  IsGenuine-levels p g =
      let o = open_step p g in
      let ls = Opened-Levels p o in
      let below : level p ≤ cap p = elim ls.bound [
        | inl low ↦ low
        | inr high ↦ absurd (not-negative 256 p g high (omega (arith, ls.element)))
      ] in
      (
        elim (ℕ_discrete (level p) 0) [
          | no some_level ↦ omega arith
          | yes none ↦ absurd (not_zero none)
        ],
        below,
        ls.small,
      )
    where
      not_zero : level p ≡ 0 → ⊥
      not_zero none =
          let o = open_step p g in
          let q = o.targets.inner_proof in
          let ls = Opened-Levels p o in
          let from =
            Opened-FromInner b h r layout wf vk extracts p o (λ e. omega (arith, ls.level_is)) in
          let at_inner = ap (λ xs. at xs layout.level_pi_idx) from.previous in
          let before = Opened-Levels q (open_step q from.inner_genuine) in
          elim before.bound [
            | inl low ↦ omega (arith, ls.up, at_inner, before.small, b.u32_lt_order)
            | inr high ↦ not-negative 256 q from.inner_genuine high (omega (arith, before.element))
          ]
