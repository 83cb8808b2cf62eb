-- ===== src/Wrapper/Build.antt =====
-- `build_jwt_wrapper_circuit` of src/circuits/jwt_wrapper.rs, `build_delegation_circuit` and
-- `build_delegation_and_wrapper` of src/circuits/delegate.rs, over the circuits that plonky2
-- compiles. A gate is its identifier.
pub mod Aligned
use dac_from_legacy_credenti.Prelude.{
  ℕ, ◌+◌, ◌≡◌, ◌↔◌, Bool, true, false, ◌||◌, List, [], ◌∷◌, ◌==◌, if◌then◌else◌,
}
use dac_from_legacy_credenti.Prelude.Outcome.{
  Result, ok, err, ensure, panicked, wrapper_mismatch, ◌>>=◌, ◌>>◌,
}
use dac_from_legacy_credenti.Plonky2.Hash.{num_hash_out_elts}

-- What plonky2 builds of the two circuits, for one base circuit and its layout. The constraints
-- that they lay down are those of `delegation_circuit` and `jwt_wrapper_circuit`.
pub record Compiler : Type 1 where
  -- `CircuitData` and `CommonCircuitData`, with what the code reads, sets and compares of them
  pub CircuitData : Type 0
  pub CommonCircuitData : Type 0
  pub common : CircuitData → CommonCircuitData
  pub gates : CommonCircuitData → List ℕ
  pub num_public_inputs : CommonCircuitData → ℕ
  pub set_num_public_inputs : ℕ → CommonCircuitData → CommonCircuitData
  pub set_same :
      (common : CommonCircuitData)
      → set_num_public_inputs (num_public_inputs common) common ≡ common
  pub common_eq : CommonCircuitData → CommonCircuitData → Bool
  pub common_eq_iff : (a b : CommonCircuitData) → (common_eq a b ≡ true) ↔ (a ≡ b)
  -- `base_common.num_public_inputs`, and how many elements the cap of a key has
  pub base_pi_count : ℕ
  pub cap_len : ℕ
  -- `common_data_for_recursion`
  pub seed_common : CommonCircuitData
  -- `build_delegation_circuit_with_common`, for the common data of the proofs that it verifies and
  -- the gates to register first
  pub build_delegation_circuit_with_common : CommonCircuitData → List ℕ → CircuitData
  -- `try_build_with_options` at the end of the wrapper, for the gates registered first
  pub build_wrapper : List ℕ → CircuitData

-- `Vec::contains`
unfoldable pub contains : List ℕ → ℕ → Bool
contains [] g = false
contains (k ∷ gates) g = k == g || contains gates g

-- `.iter().filter(|g| !gates.contains(g)).cloned().collect()`
unfoldable pub missing : List ℕ → List ℕ → List ℕ
unfolding contains
missing gates [] = []
missing gates (g ∷ rest) =
    let later = missing gates rest in if contains gates g then later else g ∷ later

module _ (c : Compiler) where
  open c use {CircuitData, CommonCircuitData}

  -- The circuit and the common data of the proofs that it verifies.
  unfoldable pub build_delegation_circuit : List ℕ → Result (CircuitData × CommonCircuitData)
  build_delegation_circuit extra_gates = do
    let trial_cd = c.build_delegation_circuit_with_common c.seed_common extra_gates
    let cyclic_common = c.common trial_cd
    let cd = c.build_delegation_circuit_with_common cyclic_common extra_gates
    ensure (c.common_eq (c.common cd) cyclic_common) panicked
    ok (cd, cyclic_common)

  pub data JwtWrapperBuildResult : Type 0 where
    built : CircuitData → JwtWrapperBuildResult
    mismatch : CommonCircuitData → JwtWrapperBuildResult

  -- The public inputs are those of the base, the slot of the digest, and the circuit's own key.
  unfoldable pub wrapper_goal : CommonCircuitData → CommonCircuitData
  wrapper_goal cyclic_common =
      c.set_num_public_inputs
        (c.base_pi_count + num_hash_out_elts + (num_hash_out_elts + c.cap_len)) cyclic_common

  unfoldable pub build_jwt_wrapper_circuit : CommonCircuitData → JwtWrapperBuildResult
  unfolding wrapper_goal
  build_jwt_wrapper_circuit cyclic_common =
      let cd = c.build_wrapper (c.gates cyclic_common) in
      if c.common_eq (c.common cd) (wrapper_goal cyclic_common)
      then built cd
      else mismatch (c.common cd)

  -- `(del_cd, del_common, wrapper_cd)`
  abbrev pub Pair : Type 0
  Pair = CircuitData × CommonCircuitData × CircuitData

  -- The second attempt, which gives up on a mismatch.
  unfoldable pub retry_with : List ℕ → Result Pair
  unfolding build_delegation_circuit build_jwt_wrapper_circuit
  retry_with extra_gates = do
    (del_cd, del_common) ← build_delegation_circuit extra_gates
    elim (build_jwt_wrapper_circuit del_common) [
      | built cd ↦ ok (del_cd, del_common, cd)
      | mismatch wrapper_common ↦ err wrapper_mismatch
    ]

  unfoldable pub build_delegation_and_wrapper : Result Pair
  unfolding build_delegation_circuit build_jwt_wrapper_circuit missing retry_with
  build_delegation_and_wrapper = do
    (del_cd, del_common) ← build_delegation_circuit []
    elim (build_jwt_wrapper_circuit del_common) [
      | built cd ↦ ok (del_cd, del_common, cd)
      | mismatch wrapper_common ↦ retry_with (missing (c.gates del_common) (c.gates wrapper_common))
    ]
