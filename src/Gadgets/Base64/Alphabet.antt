-- ===== src/Gadgets/Base64/Alphabet.antt =====
-- The alphabet of base64url, and the decoding of a character.
use dac_from_legacy_credenti.Prelude.{ℕ, ◌<◌, ◌≡◌, refl, List, [], ◌∷◌, All, All-range, at, range}
use dac_from_legacy_credenti.Prelude.Outcome.{ok}
use dac_from_legacy_credenti.Gadgets.Base64.{base64url_alphabet, base64url_char_to_value}

All-refl : (xs : List ℕ) → All (λ i. ok i ≡ ok i) xs
All-refl [] = tt
All-refl (x ∷ xs) = (refl, All-refl xs)

-- The character that the alphabet has at a six-bit value decodes to that value.
pub base64url_char_to_value-at :
    (v : ℕ) → v < 64 → base64url_char_to_value (at base64url_alphabet v) ≡ ok v
unfolding base64url_char_to_value
base64url_char_to_value-at v lt =
    All-range (λ i. base64url_char_to_value (at base64url_alphabet i) ≡ ok i) 64 v table lt
  where
    table : All (λ i. base64url_char_to_value (at base64url_alphabet i) ≡ ok i) (range 64)
    table = All-refl (range 64)
