-- ===== src/Credential/Cnf/Coords.antt =====
-- The conversion between a public key and its base64url coordinates, over the big integers and the
-- base64 crate, which are parameters.
use dac_from_legacy_credenti.Prelude.{
  ℕ, zero, suc, ◌+◌, ◌-◌, ◌*◌, ◌%◌, ◌^◌, ◌<◌, ◌≤◌, ◌≡◌, refl, sym, ap, ◌∙◌, List, [], ◌∷◌, ◌++◌,
  length, replicate, length-append, length-replicate, Bool, true, false, ◌/◌, ◌==◌, ==_iff, ltb,
  if◌then◌else◌, arith,
}
use dac_from_legacy_credenti.Prelude.Outcome.{Result, ok, ensure, panicked, ◌>>=◌, ◌>>◌}
use dac_from_legacy_credenti.Credential.Cnf.{b64url_coord_len}

-- The number that big-endian bytes stand for.
unfoldable pub big_endian : ℕ → List ℕ → ℕ
big_endian n [] = n
big_endian n (c ∷ bytes) = big_endian (n * 256 + c) bytes

-- What the code relies on of `num_bigint::BigUint`, the `base64` crate and the curve's library:
-- unpadded base64 takes four characters for three bytes, rounded up.
pub record Codec : Type 0 where
  pub to_bytes_be : ℕ → List ℕ
  pub to_bytes_be-big_endian : (n : ℕ) → big_endian 0 (to_bytes_be n) ≡ n
  pub length-to_bytes_be : (n k : ℕ) → n < 256 ^ k → 0 < k → length (to_bytes_be n) ≤ k
  pub base64url_encode : List ℕ → List ℕ
  pub length-base64url_encode :
      (bytes : List ℕ) → length (base64url_encode bytes) ≡ (length bytes * 4 + 2) / 3
  pub base64url_decode : List ℕ → Result (List ℕ)
  pub decode-encode : (bytes : List ℕ) → base64url_decode (base64url_encode bytes) ≡ ok bytes
  -- the equation of the curve, `y.square() == x.cube() + C::A * x + C::B`
  pub on_curve : ℕ → ℕ → Bool

-- `AffinePoint<P256>`, which an `ECDSAPublicKey` holds
pub record EcdsaPublicKey : Type 0 where
  pub x : ℕ
  pub y : ℕ
  pub zero : Bool

-- `P256Base::ORDER`
abbrev pub p256_order : ℕ
p256_order = 0xffffffff00000001000000000000000000000000ffffffffffffffffffffffff

-- `pad_be_bytes` of src/utils/crypto.rs
unfoldable pub pad_be_bytes : List ℕ → ℕ → List ℕ
pad_be_bytes bytes len =
    if ltb (length bytes) len then replicate (len - length bytes) 0 ++ bytes else bytes

-- The debug assertions are those of a debug build, in which they panic.
module _ (c : Codec) where
  unfoldable pub pk_coords_to_base64url : EcdsaPublicKey → Result (List ℕ × List ℕ)
  unfolding pad_be_bytes
  pk_coords_to_base64url pk = do
    let x_bytes = pad_be_bytes (c.to_bytes_be pk.x) 32
    let y_bytes = pad_be_bytes (c.to_bytes_be pk.y) 32
    let x_b64 = c.base64url_encode x_bytes
    let y_b64 = c.base64url_encode y_bytes
    ensure (length x_b64 == b64url_coord_len) panicked
    ensure (length y_b64 == b64url_coord_len) panicked
    ok (x_b64, y_b64)

  -- `AffinePoint::nonzero`, whose assertion is `is_valid`
  unfoldable pub nonzero : ℕ → ℕ → Result EcdsaPublicKey
  nonzero x y = do ensure (c.on_curve x y) panicked; ok (record { x = x; y = y; zero = false })

  -- `P256Base::from_noncanonical_biguint` reduces by the order.
  unfoldable pub base64url_coords_to_pk : List ℕ → List ℕ → Result EcdsaPublicKey
  unfolding big_endian nonzero
  base64url_coords_to_pk x_b64 y_b64 = do
    x_bytes ← c.base64url_decode x_b64
    y_bytes ← c.base64url_decode y_b64
    nonzero (big_endian 0 x_bytes % p256_order) (big_endian 0 y_bytes % p256_order)

big_endian-zeros :
    (n : ℕ) (bytes : List ℕ) → big_endian 0 (replicate n 0 ++ bytes) ≡ big_endian 0 bytes
unfolding big_endian
big_endian-zeros zero bytes = refl
big_endian-zeros (suc n) bytes = big_endian-zeros n bytes

-- Padding keeps the number.
pub big_endian-pad_be_bytes :
    (bytes : List ℕ) (len : ℕ) → big_endian 0 (pad_be_bytes bytes len) ≡ big_endian 0 bytes
unfolding pad_be_bytes
big_endian-pad_be_bytes bytes len = ground (arith, big_endian-zeros (len - length bytes) bytes)

-- Padded bytes have the length that is asked for, if they fit.
pub length-pad_be_bytes :
    (bytes : List ℕ) (len : ℕ) → length bytes ≤ len → length (pad_be_bytes bytes len) ≡ len
unfolding pad_be_bytes
length-pad_be_bytes bytes len h = ground (
  arith,
  length-append (replicate (len - length bytes) 0) bytes,
  length-replicate (len - length bytes) zero,
)

module _ (c : Codec) where
  -- A coordinate in the field is encoded by 43 characters.
  coord-length :
      (n : ℕ)
      → n < p256_order
      → length (c.base64url_encode (pad_be_bytes (c.to_bytes_be n) 32)) ≡ b64url_coord_len
  coord-length n lt =
      let bytes = pad_be_bytes (c.to_bytes_be n) 32 in
      let size : length bytes ≡ 32 =
        length-pad_be_bytes (c.to_bytes_be n) 32
          (c.length-to_bytes_be n 32 (omega arith) (omega arith)) in
      c.length-base64url_encode bytes ∙ ap (λ k. (k * 4 + 2) / 3) size

  coord-value :
      (n : ℕ) → n < p256_order → big_endian 0 (pad_be_bytes (c.to_bytes_be n) 32) % p256_order ≡ n
  coord-value n lt =
      ap (λ m. m % p256_order)
        (big_endian-pad_be_bytes (c.to_bytes_be n) 32 ∙ c.to_bytes_be-big_endian n)
      ∙ omega arith

  -- A finite key of the curve with coordinates in the field is converted without a panic to two
  -- texts of 43 characters, the length that the cnf block and its extractor fix, and these texts
  -- are converted back to the key.
  pub base64url_coords_to_pk-pk_coords_to_base64url :
      (pk : EcdsaPublicKey)
      → pk.x < p256_order
      → pk.y < p256_order
      → pk.zero ≡ false
      → c.on_curve pk.x pk.y ≡ true
      → (x_b64 y_b64 : List ℕ) × (pk_coords_to_base64url c pk ≡ ok (x_b64, y_b64))
        × (length x_b64 ≡ b64url_coord_len)
        × (length y_b64 ≡ b64url_coord_len)
        × (base64url_coords_to_pk c x_b64 y_b64 ≡ ok pk)
  unfolding pk_coords_to_base64url base64url_coords_to_pk nonzero
  base64url_coords_to_pk-pk_coords_to_base64url pk hx hy finite valid =
      let x_bytes = pad_be_bytes (c.to_bytes_be pk.x) 32 in
      let y_bytes = pad_be_bytes (c.to_bytes_be pk.y) 32 in
      let x_len = coord-length pk.x hx in
      let y_len = coord-length pk.y hy in
      (
        c.base64url_encode x_bytes,
        c.base64url_encode y_bytes,
        rw ((==_iff (length (c.base64url_encode x_bytes)) b64url_coord_len).1 x_len)
            (rw ((==_iff (length (c.base64url_encode y_bytes)) b64url_coord_len).1 y_len) refl),
        x_len,
        y_len,
        rw
            (
              c.decode-encode x_bytes,
              c.decode-encode y_bytes,
              coord-value pk.x hx,
              coord-value pk.y hy,
              valid,
            )
            (ap (λ z. ok (record { x = pk.x; y = pk.y; zero = z })) (sym finite)),
      )
