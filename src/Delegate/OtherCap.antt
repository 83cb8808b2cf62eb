-- ===== src/Delegate/OtherCap.antt =====
-- What the delegation circuit of src/circuits/delegate.rs leaves open of the wrapper's key.
mod Tests
use dac_from_legacy_credenti.Prelude.{ℕ, ◌+◌, sym, ◌&&◌, List, ◌==◌, arith}
use dac_from_legacy_credenti.Plonky2.Recursion.{Recursion, VerifierData}
use dac_from_legacy_credenti.Delegate.{DelegationTargets}

abbrev pub with_wrapper_vk :
    {r : Recursion} → DelegationTargets r → VerifierData → DelegationTargets r
with_wrapper_vk t v = record t { wrapper_vk = v }
