-- ===== src/Delegate/Prove/Guard.antt =====
-- The depth-cap guard of the prover, against the circuit's rule on the cap.
use dac_from_legacy_credenti.Prelude.{ℕ, ◌≤◌, ◌<◌, ◌≡◌, ◌↔◌, inl, true, Option, arith}
use dac_from_legacy_credenti.Prelude.Outcome.{ok}
use dac_from_legacy_credenti.Plonky2.Field.{Builder}
use dac_from_legacy_credenti.Plonky2.Circuit.{holds}
use dac_from_legacy_credenti.Delegate.{cap_rule}
use dac_from_legacy_credenti.Delegate.Rules.{cap_rule_iff}
use dac_from_legacy_credenti.Delegate.Prove.{cap_or, resolve_depth_cap}

-- The guard accepts exactly when the level fits the cap and the cap fits the parent's.
resolve_depth_cap-order :
    (max_level : Option ℕ) (level_next prev : ℕ)
    → (resolve_depth_cap max_level level_next prev ≡ ok (cap_or max_level prev))
      ↔ ((level_next ≤ cap_or max_level prev) × (cap_or max_level prev ≤ prev))
unfolding resolve_depth_cap
resolve_depth_cap-order max_level level_next prev =
    (λ e. (ground arith, ground arith), λ h. ground arith)

-- For a parent whose cap is a byte and a next level of at most 256, the guard resolves to the
-- requested cap, or the parent's where none is requested, exactly when the circuit's depth-cap
-- rule holds of it.
pub resolve_depth_cap-cap_rule :
    (b : Builder) (max_level : Option ℕ) (level_next prev : ℕ)
    → prev < 256
    → level_next ≤ 256
    → cap_or max_level prev < 256
    → (resolve_depth_cap max_level level_next prev ≡ ok (cap_or max_level prev))
      ↔ (holds (cap_rule b level_next (cap_or max_level prev) prev) ≡ true)
resolve_depth_cap-cap_rule b max_level level_next prev byte near small =
    let big = b.u32_lt_order in
    let cap = cap_or max_level prev in
    let guard = resolve_depth_cap-order max_level level_next prev in
    let rule = cap_rule_iff b level_next cap prev (omega arith) (omega arith) (omega arith) in
    (
      λ e. let (fits, tight) = guard.0 e in rule.1 (small, tight, omega arith, inl fits),
      λ e. let (_, tight, _, fits) = rule.0 e in guard.1 (omega (arith, fits), tight),
    )
