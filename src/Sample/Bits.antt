-- ===== src/Sample/Bits.antt =====
-- Bytes as bits, at which the tests on messages run.
use dac_from_legacy_credenti.Prelude.{
  ℕ, ◌+◌, ◌*◌, ◌/◌, ◌%◌, ◌≡◌, refl, Bool, List, [], ◌∷◌, length, ◌==◌, at, arith,
}
use dac_from_legacy_credenti.Gadgets.Base64.{base64url_alphabet}

-- Eight bits to a byte, the most significant first.
abbrev pub bits_of : List ℕ → List Bool
bits_of [] = []
bits_of (byte ∷ bytes) =
    (byte / 128 % 2 == 1)
    ∷ ((byte / 64 % 2 == 1)
        ∷ ((byte / 32 % 2 == 1)
            ∷ ((byte / 16 % 2 == 1)
                ∷ ((byte / 8 % 2 == 1)
                    ∷ ((byte / 4 % 2 == 1)
                        ∷ ((byte / 2 % 2 == 1) ∷ ((byte % 2 == 1) ∷ bits_of bytes)))))))

pub length-bits_of : (bytes : List ℕ) → length (bits_of bytes) ≡ length bytes * 8
length-bits_of [] = refl
length-bits_of (byte ∷ bytes) = omega (arith, length-bits_of bytes)

-- Unpadded base64url.
abbrev char_of : ℕ → ℕ
char_of sextet = at base64url_alphabet (sextet % 64)

abbrev pub encode : List ℕ → List ℕ
encode [] = []
encode (x ∷ []) = char_of (x / 4) ∷ (char_of (x % 4 * 16) ∷ [])
encode (x ∷ y ∷ []) =
    char_of (x / 4) ∷ (char_of (x % 4 * 16 + y / 16) ∷ (char_of (y % 16 * 4) ∷ []))
encode (x ∷ y ∷ z ∷ bytes) =
    char_of (x / 4)
    ∷ (char_of (x % 4 * 16 + y / 16) ∷ (char_of (y % 16 * 4 + z / 64) ∷ (char_of z ∷ encode bytes)))
