-- ===== src/Merkle/Power.antt =====
-- `usize::is_power_of_two`.
use dac_from_legacy_credenti.Prelude.{
  ℕ, zero, suc, ◌*◌, ◌/◌, ◌%◌, ◌^◌, ◌≤◌, ◌≡◌, refl, ◌∙◌, Bool, true, false, ◌==◌, if◌then◌else◌,
  arith, ℕ_discrete,
}
use native.Mathlib.Nat.{pow-suc, one-le-pow}

-- Halves an even number until 1 is left; the number itself is fuel enough.
unfoldable pub is_power_within : ℕ → ℕ → Bool
is_power_within zero n = false
is_power_within (suc fuel) n =
    let rest = is_power_within fuel (n / 2) in
    if n == 1 then true else if n == 0 then false else if n % 2 == 0 then rest else false

unfoldable pub is_power_of_two : ℕ → Bool
unfolding is_power_within
is_power_of_two n = is_power_within n n

is_power_within_sound : (fuel n : ℕ) → is_power_within fuel n ≡ true → (k : ℕ) × (n ≡ 2 ^ k)
unfolding is_power_within
is_power_within_sound zero n h = cc
is_power_within_sound (suc fuel) n h = elim (ℕ_discrete n 1) [
  | yes e ↦ (0, e)
  | no ne ↦
      let rest : is_power_within fuel (n / 2) ≡ true = ground arith in
      let even : n % 2 ≡ 0 = ground arith in
      let (k, e) = is_power_within_sound fuel (n / 2) rest in
      (suc k, rw (pow-suc 2 k, ← e) (omega arith))
]

is_power_within_complete : (fuel k : ℕ) → 2 ^ k ≤ fuel → is_power_within fuel (2 ^ k) ≡ true
unfolding is_power_within
is_power_within_complete zero k h = absurd (omega (arith, one-le-pow k 2 (omega arith)))
is_power_within_complete (suc fuel) zero h = refl
is_power_within_complete (suc fuel) (suc k) h =
    let double : 2 ^ suc k ≡ 2 * 2 ^ k = pow-suc 2 k ∙ omega arith in
    let pos : 1 ≤ 2 ^ k = one-le-pow k 2 (omega arith) in
    let half : 2 ^ suc k / 2 ≡ 2 ^ k = omega arith in
    let rest = is_power_within_complete fuel k (omega arith) in ground (arith, rw (← half) at rest)

-- Every power of two passes the test.
pub is_power_of_two_complete : (k : ℕ) → is_power_of_two (2 ^ k) ≡ true
unfolding is_power_of_two
is_power_of_two_complete k = is_power_within_complete (2 ^ k) k (omega arith)

-- What passes the test is a power of two.
pub is_power_of_two-pow : (n : ℕ) → is_power_of_two n ≡ true → (k : ℕ) × (n ≡ 2 ^ k)
unfolding is_power_of_two
is_power_of_two-pow n h = is_power_within_sound n n h
