-- ===== src/Wrapper/Build/Aligned.antt =====
-- What the co-build of the two circuits returns, on every branch.
use dac_from_legacy_credenti.Prelude.{
  ℕ, ◌+◌, ◌≡◌, ◌≢◌, refl, sym, ap, ◌∙◌, ◌⊎◌, inl, inr, true, false, List, [], ◌∷◌, ◌==◌, ==_iff,
  Bool-cases, arith,
}
use dac_from_legacy_credenti.Prelude.Outcome.{Result, ok, err, panicked, wrapper_mismatch, ◌>>=◌}
use dac_from_legacy_credenti.Plonky2.Hash.{num_hash_out_elts}
use dac_from_legacy_credenti.Wrapper.Build.{
  Compiler, contains, missing, Pair, built, mismatch, wrapper_goal, build_delegation_circuit,
  build_jwt_wrapper_circuit, retry_with, build_delegation_and_wrapper,
}

abbrev pub HasGate : List ℕ → ℕ → Type 0
HasGate gates g = contains gates g ≡ true

-- A gate is in a set or is missing from it.
missing-HasGate :
    (gates all : List ℕ) (g : ℕ) → HasGate all g → HasGate gates g ⊎ HasGate (missing gates all) g
unfolding contains missing
missing-HasGate gates [] g h = absurd (ground arith)
missing-HasGate gates (k ∷ all) g h = elim (Bool-cases (contains gates g)) [
  | inl there ↦ inl there
  | inr lacks ↦ inr (elim (Bool-cases (k == g)) [
    | inl same ↦
        let e : k ≡ g = (==_iff k g).0 same in
        let out : contains gates k ≡ false = ap (contains gates) e ∙ lacks in rw (out, same) refl
    | inr other ↦
        let rest : HasGate all g = ground arith in
        elim (missing-HasGate gates all g rest) [
          | inl there ↦ absurd (ground arith)
          | inr found ↦ ground (arith, found)
        ]
  ])
]

module _ (c : Compiler) where
  open c use {CircuitData, CommonCircuitData}

  -- The common data of the delegation circuit with some gates registered, if it verifies proofs of
  -- the common data `cyclic`.
  abbrev pub delegation_common : CommonCircuitData → List ℕ → CommonCircuitData
  delegation_common cyclic extra = c.common (c.build_delegation_circuit_with_common cyclic extra)

  abbrev pub wrapper_common : CommonCircuitData → CommonCircuitData
  wrapper_common cyclic = c.common (c.build_wrapper (c.gates cyclic))

  abbrev pub IsCyclic : List ℕ → CommonCircuitData → Type 0
  IsCyclic extra d = delegation_common d extra ≡ d

  -- What the code relies on: a registered gate is in the gate set, registering gates keeps those
  -- that a cyclic delegation circuit has, and the delegation circuit exposes as many public inputs
  -- as its layout says, which is that of the base circuit.
  pub record Registers : Type 0 where
    pub registered :
        (d : CommonCircuitData) (extra : List ℕ) (g : ℕ)
        → HasGate extra g
        → HasGate (c.gates (delegation_common d extra)) g
    pub kept :
        (first second : CommonCircuitData) (extra : List ℕ) (g : ℕ)
        → IsCyclic [] first
        → IsCyclic extra second
        → HasGate (c.gates first) g
        → HasGate (c.gates second) g
    pub exposed :
        (d : CommonCircuitData) (extra : List ℕ)
        → c.num_public_inputs (delegation_common d extra)
          ≡ c.base_pi_count + num_hash_out_elts + (num_hash_out_elts + c.cap_len)

  -- Both circuits have the common data that the delegation circuit verifies proofs of.
  pub record Aligned (p : Pair c) : Type 0 where
    pub own : c.common p.0 ≡ p.1
    pub shared : c.common p.2 ≡ p.1

  -- A delegation circuit that does not verify its own kind of proofs.
  pub record Diverges : Type 0 where
    pub extra : List ℕ
    pub differs :
        delegation_common (delegation_common c.seed_common extra) extra
        ≢ delegation_common c.seed_common extra

  -- Two delegation circuits, of which the second has every gate of the first one's wrapper, and
  -- neither has the common data of its wrapper.
  pub record StillMismatches : Type 0 where
    pub first : CommonCircuitData
    pub first_own : IsCyclic [] first
    pub first_differs : wrapper_common first ≢ first
    pub extra : List ℕ
    pub second : CommonCircuitData
    pub second_own : IsCyclic extra second
    pub covered : (g : ℕ) → HasGate (c.gates (wrapper_common first)) g → HasGate (c.gates second) g
    pub second_differs : wrapper_common second ≢ second

  different : (a b : CommonCircuitData) → c.common_eq a b ≡ false → a ≢ b
  different a b e same = absurd (ground (arith, (c.common_eq_iff a b).1 same))

  -- Either the circuit verifies its own kind of proofs, or the assertion panics.
  build_delegation_circuit-cases :
      (extra : List ℕ)
      → ((cd : CircuitData) × (d : CommonCircuitData) × (build_delegation_circuit c extra
            ≡ ok (cd, d))
          × (c.common cd ≡ d)
          × IsCyclic extra d)
        ⊎ ((build_delegation_circuit c extra ≡ err panicked) × Diverges)
  unfolding build_delegation_circuit
  build_delegation_circuit-cases extra =
      let d = delegation_common c.seed_common extra in
      elim (Bool-cases (c.common_eq (delegation_common d extra) d)) [
        | inl same ↦
            let own = (c.common_eq_iff (delegation_common d extra) d).0 same in
            inl (c.build_delegation_circuit_with_common d extra, d, rw same refl, own, own)
        | inr other ↦ inr (
          rw other refl,
          record { extra = extra; differs = different (delegation_common d extra) d other },
        )
      ]

  -- For a delegation circuit with the layout's public inputs the goal is its own common data.
  build_jwt_wrapper_circuit-cases :
      Registers
      → (extra : List ℕ) (d : CommonCircuitData) → IsCyclic extra d
      → ((cd : CircuitData) × (build_jwt_wrapper_circuit c d ≡ built cd) × (c.common cd ≡ d))
        ⊎ ((build_jwt_wrapper_circuit c d ≡ mismatch (wrapper_common d)) × (wrapper_common d ≢ d))
  unfolding build_jwt_wrapper_circuit wrapper_goal
  build_jwt_wrapper_circuit-cases h extra d own =
      let count = c.base_pi_count + num_hash_out_elts + (num_hash_out_elts + c.cap_len) in
      let goal : wrapper_goal c d ≡ d =
        ap (λ n. c.set_num_public_inputs n d) (sym (h.exposed d extra) ∙ ap c.num_public_inputs own)
        ∙ c.set_same d in
      elim (Bool-cases (c.common_eq (wrapper_common d) (wrapper_goal c d))) [
        | inl same ↦ inl (
          c.build_wrapper (c.gates d),
          rw same refl,
          (c.common_eq_iff (wrapper_common d) (wrapper_goal c d)).0 same ∙ goal,
        )
        | inr other ↦ inr (
          rw other refl,
          λ e. different (wrapper_common d) (wrapper_goal c d) other (e ∙ sym goal),
        )
      ]

  abbrev pub Ends : Result (Pair c) → Type 0
  Ends result =
      ((p : Pair c) × (result ≡ ok p) × Aligned p)
      ⊎ (((result ≡ err panicked) × Diverges) ⊎ ((result ≡ err wrapper_mismatch) × StillMismatches))

  retry_with-Ends :
      Registers
      → (first : CommonCircuitData) → IsCyclic [] first
      → wrapper_common first ≢ first
      → Ends (retry_with c (missing (c.gates first) (c.gates (wrapper_common first))))
  unfolding retry_with
  retry_with-Ends h first own differs =
      let extra = missing (c.gates first) (c.gates (wrapper_common first)) in
      elim (build_delegation_circuit-cases extra) [
        | inr (failed, why) ↦ inr (inl (rw failed refl, why))
        | inl (cd, d, made, same, cyclic) ↦
            elim (build_jwt_wrapper_circuit-cases h extra d cyclic) [
              | inl (w, fits, shared) ↦
                  inl (
                    (cd, d, w),
                    rw (made, ◌>>=◌, fits) refl,
                    record { own = same; shared = shared },
                  )
              | inr (fails, other) ↦ inr (
                  inr (
                    rw (made, ◌>>=◌, fails) refl,
                    record {
                      first = first;
                      first_own = own;
                      first_differs = differs;
                      extra = extra;
                      second = d;
                      second_own = cyclic;
                      covered = λ g k.
                          elim (missing-HasGate (c.gates first) (c.gates (wrapper_common first)) g
                            k) [
                              | inl there ↦ h.kept first d extra g own cyclic there
                              | inr lacks ↦
                                  rw (ap (λ x. contains (c.gates x) g) (sym cyclic))
                                    (h.registered d extra g lacks)
                            ];
                      second_differs = other;
                    },
                  ))
            ]
      ]

  -- Where registering gates does what the code relies on, the co-build ends in one of three ways.
  -- It returns two circuits with the common data that the delegation circuit verifies proofs of;
  -- or it panics, and a delegation circuit does not verify its own kind of proofs; or it reports
  -- the mismatch, and the rebuilt delegation circuit differs from its wrapper although it has every
  -- gate of the first wrapper.
  pub build_delegation_and_wrapper-Ends : Registers → Ends (build_delegation_and_wrapper c)
  unfolding build_delegation_and_wrapper
  build_delegation_and_wrapper-Ends h = elim (build_delegation_circuit-cases []) [
    | inr (failed, why) ↦ inr (inl (rw failed refl, why))
    | inl (cd, d, made, same, cyclic) ↦ elim (build_jwt_wrapper_circuit-cases h [] d cyclic) [
      | inl (w, fits, shared) ↦
          inl ((cd, d, w), rw (made, ◌>>=◌, fits) refl, record { own = same; shared = shared })
      | inr (fails, other) ↦ rw (made, ◌>>=◌, fails) (retry_with-Ends h d cyclic other)
    ]
  ]
