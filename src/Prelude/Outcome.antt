-- ===== src/Prelude/Outcome.antt =====
-- `anyhow::Result`: a value, or one of the errors that the modelled code reports.
use mathlib.Core.Path.{◌≡◌, refl}
use mathlib.Core.Logic.{◌⊎◌, inl, inr}
use mathlib.Core.Option.{Option, none, some}
use mathlib.Core.Bool.{Bool, true, false}

-- One constructor for each message; `panicked` is an `assert!` that fails or an index out of range.
pub data Error : Type 0 where
  no_attributes not_power_of_two capacity_too_small : Error
  bad_attribute_length attribute_count length_mismatch : Error
  empty_attributes bad_capacity bitmap_mismatch : Error
  cap_exceeds_parent cap_reached : Error
  out_of_range invalid_character : Error
  invalid_utf8 claim_not_found claim_at_start bad_claim_prefix unterminated_value : Error
  empty_value cnf_not_found bad_cnf_block wrapper_mismatch : Error
  panicked : Error

pub data Result {κ} (T : Type κ) : Type κ where
  err : Error → Result T
  ok : T → Result T

-- `anyhow::ensure!`, or a `bail!` under the negated test.
abbrev pub ensure : Bool → Error → Result (Unit {0})
ensure test message = elim test [ false ↦ err message | true ↦ ok tt ]

-- `Option::ok_or_else`
unfoldable pub ok_or {κ} : {T : Type κ} → Option T → Error → Result T
ok_or none message = err message
ok_or (some t) message = ok t

-- Rust's `?`, and a statement that may fail before what follows it.
infixl 5 ◌>>=◌
abbrev pub ◌>>=◌ {κ} : {T U : Type κ} → Result T → (T → Result U) → Result U
err message >>= next = err message
ok done >>= next = next done

infixl 5 ◌>>◌
abbrev pub ◌>>◌ : {U : Type 0} → Result (Unit {0}) → Result U → Result U
step >> next = step >>= λ _. next

-- What a successful run of two steps went through.
pub >>=-eq_ok {κ} :
    {T U : Type κ} (m : Result T) (next : T → Result U) {u : U}
    → (m >>= next) ≡ ok u
    → (t : T) × (m ≡ ok t) × (next t ≡ ok u)
>>=-eq_ok (err message) next e = cc
>>=-eq_ok (ok t) next e = (t, refl, e)

pub ensure-ok :
    (test : Bool) (message : Error) {u : Unit {0}} → ensure test message ≡ ok u → test ≡ true
ensure-ok false message e = cc
ensure-ok true message e = refl

-- To split on a search and keep the equation.
pub Option-cases : {T : Type 0} (r : Option T) → (r ≡ none) ⊎ ((t : T) × (r ≡ some t))
Option-cases none = inl refl
Option-cases (some t) = inr (t, refl)

pub Result-cases :
    {T : Type 0} (r : Result T) → ((message : Error) × (r ≡ err message)) ⊎ ((t : T) × (r ≡ ok t))
Result-cases (err message) = inl (message, refl)
Result-cases (ok t) = inr (t, refl)
