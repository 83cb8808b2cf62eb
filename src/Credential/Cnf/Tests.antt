-- ===== src/Credential/Cnf/Tests.antt =====
-- The theorems on the `cnf` block, at the generator of P-256, with a codec of the right lengths.
use native.Mathlib.Nat.{pow-suc}
use dac_from_legacy_credenti.Prelude.{
  ap, ◌∙◌, Bool, false, ◌-◌, take, length-replicate, ℕ, zero, suc, ◌+◌, ◌*◌, ◌/◌, ◌%◌, ◌^◌, ◌≤◌,
  ◌<◌, ◌≡◌, refl, true, List, [], ◌∷◌, ◌++◌, length, length-append, replicate, ◌==◌, if◌then◌else◌,
  arith,
}
use dac_from_legacy_credenti.Prelude.Outcome.{ok}
use dac_from_legacy_credenti.Prelude.Text.{find, starts_with, is_utf8, is_char_boundary}
use dac_from_legacy_credenti.Prelude.Text.Search.{StandsAt}
use dac_from_legacy_credenti.Credential.Cnf.{
  build_cnf_block, find_cnf_start, extract_cnf_coords, b64url_coord_len,
}
use dac_from_legacy_credenti.Credential.Cnf.Block.{
  extract_cnf_coords-build_cnf_block, find_cnf_start-extract_cnf_coords,
}
use dac_from_legacy_credenti.Credential.Cnf.Coords.{
  p256_order, Codec, EcdsaPublicKey, big_endian, pk_coords_to_base64url, base64url_coords_to_pk,
  base64url_coords_to_pk-pk_coords_to_base64url,
}

-- The big-endian digits of a number in base 256, on fuel.
digits_of : ℕ → ℕ → List ℕ
digits_of zero n = []
digits_of (suc fuel) n =
    let rest = digits_of fuel (n / 256) in if n == 0 then [] else rest ++ (n % 256 ∷ [])

big_endian-last :
    (n : ℕ) (bytes : List ℕ) (c : ℕ)
    → big_endian n (bytes ++ (c ∷ [])) ≡ big_endian n bytes * 256 + c
unfolding big_endian
big_endian-last n [] c = refl
big_endian-last n (x ∷ bytes) c = big_endian-last (n * 256 + x) bytes c

digits_of-big_endian : (fuel n : ℕ) → n ≤ fuel → big_endian 0 (digits_of fuel n) ≡ n
unfolding digits_of big_endian
digits_of-big_endian zero n h = omega arith
digits_of-big_endian (suc fuel) n h = ground (
  arith,
  digits_of-big_endian fuel (n / 256),
  big_endian-last 0 (digits_of fuel (n / 256)) (n % 256),
)

length-digits_of : (fuel n k : ℕ) → n < 256 ^ k → length (digits_of fuel n) ≤ k
unfolding digits_of
length-digits_of zero n k h = omega arith
length-digits_of (suc fuel) n zero h = let none : n ≡ 0 = omega arith in rw none (omega arith)
length-digits_of (suc fuel) n (suc k) h = ground (
  arith,
  length-append (digits_of fuel (n / 256)) (n % 256 ∷ []),
  length-digits_of fuel (n / 256) k (omega (arith, h, pow-suc 256 k)),
)

-- Unpadded base64's lengths, without its alphabet: a third more zeros.
abbrev pad_third : List ℕ → List ℕ
pad_third bytes = bytes ++ replicate ((length bytes + 2) / 3) 0

abbrev cut_third : List ℕ → List ℕ
cut_third chars = take (length chars * 3 / 4) chars

length-pad_third : (bytes : List ℕ) → length (pad_third bytes) ≡ (length bytes * 4 + 2) / 3
length-pad_third bytes =
    length-append bytes (replicate ((length bytes + 2) / 3) 0)
    ∙ ap (λ k. length bytes + k) (length-replicate ((length bytes + 2) / 3) zero)
    ∙ omega arith

take-length : (xs ys : List ℕ) → take (length xs) (xs ++ ys) ≡ xs
take-length [] ys = refl
take-length (x ∷ xs) ys = ap (λ zs. x ∷ zs) (take-length xs ys)

cut_third-pad_third : (bytes : List ℕ) → cut_third (pad_third bytes) ≡ bytes
cut_third-pad_third bytes =
    let whole : length (pad_third bytes) * 3 / 4 ≡ length bytes =
      omega (arith, length-pad_third bytes) in
    ap (λ k. take k (pad_third bytes)) whole
    ∙ take-length bytes (replicate ((length bytes + 2) / 3) 0)

-- The equation of P-256.
abbrev p256_equation : ℕ → ℕ → Bool
p256_equation x y =
    y * y % p256_order
    == (x * x * x
        + (p256_order - 3) * x
        + 0x5ac635d8aa3a93e7b3ebbd55769886bc651d06b0cc53b0f63bce3c3e27d2604b)
      % p256_order

abbrev plain : Codec
plain = record {
  to_bytes_be = λ n. digits_of n n;
  to_bytes_be-big_endian = λ n. digits_of-big_endian n n (omega arith);
  length-to_bytes_be = λ n k lt _. length-digits_of n n k lt;
  base64url_encode = pad_third;
  length-base64url_encode = length-pad_third;
  base64url_decode = λ chars. ok (cut_third chars);
  decode-encode = λ bytes. ap ok (cut_third-pad_third bytes);
  on_curve = p256_equation;
}

-- The generator of P-256.
abbrev generator : EcdsaPublicKey
generator = record {
  x = 0x6b17d1f2e12c4247f8bce6e563a440f277037d812deb33a0f4a13945d898c296;
  y = 0x4fe342e2fe1a7f9b8ee7eb4a7c0f9e162bce33576b315ececbb6406837bf51f5;
  zero = false;
}

generator-on_curve : p256_equation generator.x generator.y ≡ true
generator-on_curve = refl

base64url_coords_to_pk-pk_coords_to_base64url_example :
    (x_b64 y_b64 : List ℕ) × (pk_coords_to_base64url plain generator ≡ ok (x_b64, y_b64))
    × (length x_b64 ≡ b64url_coord_len)
    × (length y_b64 ≡ b64url_coord_len)
    × (base64url_coords_to_pk plain x_b64 y_b64 ≡ ok generator)
base64url_coords_to_pk-pk_coords_to_base64url_example =
    base64url_coords_to_pk-pk_coords_to_base64url plain generator (omega arith) (omega arith) refl
      generator-on_curve

abbrev letters_a : List ℕ
letters_a = replicate 43 97

abbrev letters_b : List ℕ
letters_b = replicate 43 98

-- The block in braces.
payload : List ℕ
unfolding build_cnf_block
payload = 123 ∷ (build_cnf_block letters_a letters_b ++ (125 ∷ []))

payload-is_utf8 : is_utf8 payload ≡ true
unfolding payload is_utf8
payload-is_utf8 = refl

payload-find_cnf_start : find_cnf_start payload ≡ ok 1
unfolding payload find_cnf_start is_utf8 find starts_with
payload-find_cnf_start = refl

payload-extract_cnf_coords : extract_cnf_coords payload 1 ≡ ok (letters_a, letters_b)
unfolding payload extract_cnf_coords is_utf8 is_char_boundary
payload-extract_cnf_coords = refl

find_cnf_start-extract_cnf_coords_example :
    StandsAt (build_cnf_block letters_a letters_b) payload 1
    × (length letters_a ≡ b64url_coord_len)
    × (length letters_b ≡ b64url_coord_len)
find_cnf_start-extract_cnf_coords_example =
    find_cnf_start-extract_cnf_coords payload letters_a letters_b 1 payload-find_cnf_start
      payload-extract_cnf_coords

payload-StandsAt : StandsAt (build_cnf_block letters_a letters_b) payload 1
payload-StandsAt =
    (find_cnf_start-extract_cnf_coords payload letters_a letters_b 1 payload-find_cnf_start
      payload-extract_cnf_coords).0

extract_cnf_coords-build_cnf_block_example :
    extract_cnf_coords payload 1 ≡ ok (letters_a, letters_b)
extract_cnf_coords-build_cnf_block_example =
    extract_cnf_coords-build_cnf_block payload letters_a letters_b 1 payload-is_utf8 refl refl
      (omega arith) (omega arith) payload-StandsAt
