-- ===== src/Credential/Attribute.antt =====
-- src/credential/attribute.rs: the fixed-width attribute and its packing into `u32` limbs.
pub mod Limbs
pub mod Marker
use dac_from_legacy_credenti.Prelude.{
  ℕ, ◌+◌, ◌-◌, ◌*◌, ◌/◌, ◌%◌, ◌<◌, ◌≡◌, Bool, ◌||◌, List, map, All, length, get_or, set, replicate,
  range, list_eq, ◌==◌, if◌then◌else◌,
}
use dac_from_legacy_credenti.Prelude.Outcome.{
  Result, ok, err, Error, bad_attribute_length, ◌>>=◌, ◌>>◌,
}

-- All zeros but for the first byte, which is 1. The length is never 0 (`IsValid`).
unfoldable pub empty_attribute_bytes : ℕ → List ℕ
empty_attribute_bytes attribute_len_bytes = set (replicate attribute_len_bytes 0) 0 1

pub record Attribute : Type 0 where
  pub bytes : List ℕ

-- What the constructors of `Attribute` guarantee.
pub record IsValid (a : Attribute) : Type 0 where
  pub words : length a.bytes % 4 ≡ 0
  pub some_bytes : 0 < length a.bytes
  pub octets : All (λ b. b < 256) a.bytes

pub ensure_valid_attribute_len_bytes : ℕ → Result (Unit {0})
ensure_valid_attribute_len_bytes n =
    if n == 0 || (if n % 4 == 0 then Bool.false else Bool.true)
    then err bad_attribute_length
    else ok tt

pub from_vec : List ℕ → Result Attribute
unfolding ensure_valid_attribute_len_bytes
from_vec bytes = do ensure_valid_attribute_len_bytes (length bytes); ok (record { bytes = bytes })

pub empty_marker : ℕ → Attribute
unfolding empty_attribute_bytes
empty_marker n = record { bytes = empty_attribute_bytes n }

unfoldable pub len_bytes : Attribute → ℕ
len_bytes a = length a.bytes

unfoldable pub is_empty : Attribute → Bool
unfolding empty_attribute_bytes
is_empty a = list_eq a.bytes (empty_attribute_bytes (length a.bytes))

-- `u32::from_be_bytes`
unfoldable pub from_be_bytes : ℕ → ℕ → ℕ → ℕ → ℕ
from_be_bytes b0 b1 b2 b3 = ((b0 * 256 + b1) * 256 + b2) * 256 + b3

-- The big-endian word at `start`.
unfoldable pub word_at : List ℕ → ℕ → ℕ
unfolding from_be_bytes
word_at bytes start =
    from_be_bytes (get_or bytes start 0) (get_or bytes (start + 1) 0) (get_or bytes (start + 2) 0)
      (get_or bytes (start + 3) 0)

-- Limb `i` is the big-endian word of the `i`-th chunk of four bytes from the end.
unfoldable pub limbs_of : List ℕ → List ℕ
unfolding word_at
limbs_of bytes = map (λ i. word_at bytes (length bytes - (i + 1) * 4)) (range (length bytes / 4))

unfoldable pub to_u32_limbs_le : Attribute → List ℕ
unfolding limbs_of
to_u32_limbs_le a = limbs_of a.bytes
