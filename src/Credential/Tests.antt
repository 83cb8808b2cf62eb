-- ===== src/Credential/Tests.antt =====
-- The theorems on attributes, at attributes of eight bytes.
use dac_from_legacy_credenti.Prelude.{◌≡◌, refl, [], ◌∷◌, arith}
use dac_from_legacy_credenti.Credential.Attribute.{Attribute, IsValid}
use dac_from_legacy_credenti.Credential.Attribute.Limbs.{to_u32_limbs_le-injective}

abbrev eight : Attribute
eight = record { bytes = 1 ∷ 2 ∷ 3 ∷ 4 ∷ 250 ∷ 251 ∷ 252 ∷ 253 ∷ [] }

eight-IsValid : IsValid eight
eight-IsValid = record { words = refl; some_bytes = omega arith; octets = omega arith }

to_u32_limbs_le-injective_example : eight ≡ eight
to_u32_limbs_le-injective_example =
    to_u32_limbs_le-injective eight eight eight-IsValid eight-IsValid refl refl
