-- ===== src/Wrapper/Tests.antt =====
-- The theorems on the wrapper, at the sample's base proof, and at a wrapper with one gate more.
use dac_from_legacy_credenti.Prelude.{
  ap₂, ◌↔◌, Bool, ◌&&◌, &&-split, ◌==◌, ==_iff, inl, inr, list_eq_refl, if◌then◌else◌, ℕ, ◌≡◌, refl,
  sym, ap, ◌∙◌, ◌⊎◌, true, List, [], ◌∷◌, ◌++◌, length, list_eq, list_eq_sound, arith,
}
use dac_from_legacy_credenti.Prelude.Outcome.{ok}
use dac_from_legacy_credenti.Plonky2.Circuit.{holds, for_each, virtual_targets, are_elements}
use dac_from_legacy_credenti.Plonky2.Recursion.{vk_elements, virtual_proof, virtual_verifier_data}
use dac_from_legacy_credenti.Merkle.InCircuit.Binding.{Collision}
use dac_from_legacy_credenti.Delegate.Tests.{layout_IsLayout, extracts}
use dac_from_legacy_credenti.Present.Tests.{shown, shown_holds, layout-IssuerApart}
use dac_from_legacy_credenti.Wrapper.{
  JwtWrapperTargets, wrapper_pis, prove_jwt_wrapper, jwt_wrapper_circuit,
}
use dac_from_legacy_credenti.Wrapper.Sound.{
  jwt_wrapper_circuit-wraps, IsHonest, prove_jwt_wrapper-holds,
}
use dac_from_legacy_credenti.Wrapper.Origin.{
  WrapperExtracts, ShowsBase, ShowsOtherCap, presentation_circuit-ShowsBase,
}
use dac_from_legacy_credenti.Wrapper.Build.{
  Compiler, contains, missing, wrapper_goal, build_delegation_circuit, build_jwt_wrapper_circuit,
  retry_with, build_delegation_and_wrapper,
}
use dac_from_legacy_credenti.Wrapper.Build.Aligned.{
  HasGate, Registers, Ends, build_delegation_and_wrapper-Ends,
}
use dac_from_legacy_credenti.Sample.Prime.{sample}
use dac_from_legacy_credenti.Sample.Hash.{toy}
use dac_from_legacy_credenti.Sample.Delegation.{
  four, layout, proofs, wrapper_key, delegation_key, base_key, base, wrapper,
}

-- The digest slot of the sample's wrapper is filled with zeros.
abbrev wrapping : JwtWrapperTargets proofs
wrapping = record {
  base_proof = base;
  outer_pis = base;
  verifier_data_target = wrapper_key;
  wrapper_digest_pis = four 0 0 0 0;
}

wrapping-holds : holds (jwt_wrapper_circuit sample proofs 8 base_key wrapping) ≡ true
unfolding jwt_wrapper_circuit for_each virtual_targets are_elements virtual_proof
    virtual_verifier_data
wrapping-holds = refl

wrapping-exposes : wrapper_pis proofs wrapping ≡ wrapper
unfolding wrapper_pis
wrapping-exposes = refl

jwt_wrapper_circuit-wraps_example :
    (proofs.verify base_key base ≡ true) × (base ≡ base) × (length base ≡ 8)
jwt_wrapper_circuit-wraps_example =
    jwt_wrapper_circuit-wraps sample proofs 8 base_key wrapping wrapping-holds

base-IsHonest : IsHonest sample proofs 8 base_key wrapper_key base
base-IsHonest = record {
  verified = refl;
  count = refl;
  elements = omega arith;
  digest_len = refl;
  cap_len = refl;
  key_elements = omega arith;
}

prove_jwt_wrapper-holds_example :
    (t : JwtWrapperTargets proofs) × (prove_jwt_wrapper proofs 8 wrapper_key base ≡ ok t)
    × (holds (jwt_wrapper_circuit sample proofs 8 base_key t) ≡ true)
    × (wrapper_pis proofs t ≡ (base ++ four 21 22 23 24) ++ vk_elements wrapper_key)
prove_jwt_wrapper-holds_example =
    prove_jwt_wrapper-holds sample proofs 8 base_key wrapper_key base base-IsHonest

-- The wrapper's key accepts the sample's wrapper proof only.
unwraps : WrapperExtracts sample proofs 8 base_key wrapper_key
unwraps p e =
    (wrapping, wrapping-holds, wrapping-exposes ∙ sym (list_eq_sound p wrapper (ground arith)))

presentation_circuit-ShowsBase_example :
    (ShowsBase toy proofs layout base_key shown ⊎ ShowsOtherCap toy proofs layout wrapper_key shown)
    ⊎ Collision toy
presentation_circuit-ShowsBase_example =
    presentation_circuit-ShowsBase sample toy proofs layout layout_IsLayout delegation_key extracts
      8 base_key wrapper_key unwraps shown refl refl (omega arith) layout-IssuerApart refl
      (λ j lt. refl) shown_holds

-- Common data are the gates and the number of public inputs.
abbrev Shape : Type 0
Shape = List ℕ × ℕ

abbrev shape_eq : Shape → Shape → Bool
shape_eq a b = list_eq a.0 b.0 && a.1 == b.1

shape_eq_iff : (a b : Shape) → (shape_eq a b ≡ true) ↔ (a ≡ b)
shape_eq_iff a b = (
  λ e.
      let parts = &&-split (list_eq a.0 b.0) (a.1 == b.1) e in
      ap₂ (λ x y. (x, y)) (list_eq_sound a.0 b.0 parts.0) ((==_iff a.1 b.1).0 parts.1),
  λ e. ap (shape_eq a) (sym e) ∙ ground (arith, list_eq_refl a.0, ==_iff a.1 a.1),
)

-- `R_Del` has gates 1 and 2 of its own, and `R_Wrap` needs gate 3.
abbrev three_gates : Compiler
three_gates = record {
  CircuitData = Shape;
  CommonCircuitData = Shape;
  common = λ cd. cd;
  gates = λ common. common.0;
  num_public_inputs = λ common. common.1;
  set_num_public_inputs = λ n common. (common.0, n);
  set_same = λ common. refl;
  common_eq = shape_eq;
  common_eq_iff = shape_eq_iff;
  base_pi_count = 8;
  cap_len = 2;
  seed_common = ([], 0);
  build_delegation_circuit_with_common = λ cyclic extra. (extra ++ (1 ∷ 2 ∷ []), 18);
  build_wrapper = λ gates. (if contains gates 3 then gates else 3 ∷ gates, 18);
}

contains-append : (xs ys : List ℕ) (g : ℕ) → HasGate ys g ⊎ HasGate xs g → HasGate (xs ++ ys) g
unfolding contains
contains-append [] ys g h = ground arith
contains-append (x ∷ xs) ys g h = ground (arith, contains-append xs ys g)

three_gates-Registers : Registers three_gates
three_gates-Registers = record {
  registered = λ d extra g h. contains-append extra (1 ∷ 2 ∷ []) g (inr h);
  kept = λ first second extra g own cyclic h.
      rw (ap (λ d. contains d.0 g) (sym cyclic))
        (contains-append extra (1 ∷ 2 ∷ []) g (inl (ap (λ d. contains d.0 g) own ∙ h)));
  exposed = λ d extra. refl;
}

-- One retry, with gate 3 registered, gives both circuits.
three_gates-built :
    build_delegation_and_wrapper three_gates
    ≡ ok ((3 ∷ 1 ∷ 2 ∷ [], 18), (3 ∷ 1 ∷ 2 ∷ [], 18), (3 ∷ 1 ∷ 2 ∷ [], 18))
unfolding build_delegation_and_wrapper retry_with build_delegation_circuit build_jwt_wrapper_circuit
    wrapper_goal missing contains
three_gates-built = refl

build_delegation_and_wrapper-Ends_example :
    Ends three_gates (build_delegation_and_wrapper three_gates)
build_delegation_and_wrapper-Ends_example =
    build_delegation_and_wrapper-Ends three_gates three_gates-Registers
