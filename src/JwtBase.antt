-- ===== src/JwtBase.antt =====
-- src/circuits/jwt_base.rs: the base circuit; so far the message bytes that it reads off the bits
-- of the hash circuit, the rule on the header, and the rule that ties the decoder's input to the
-- payload that is hashed.
pub mod Header
pub mod Payload
mod Tests
use dac_from_legacy_credenti.Prelude.{
  ℕ, zero, suc, ◌+◌, ◌-◌, ◌*◌, ◌^◌, Bool, List, [], ◌∷◌, map, drop, at, length, ◌==◌, range,
}
use dac_from_legacy_credenti.Plonky2.Field.{Builder}
use dac_from_legacy_credenti.Plonky2.Circuit.{
  Circuit, Done, ◌>>=◌, ◌>>◌, assert, connect, connect_all, for_each,
}
use dac_from_legacy_credenti.Credential.Cnf.{codes}
use dac_from_legacy_credenti.Gadgets.{OneHotTargets, make_one_hot_indicator}
use dac_from_legacy_credenti.Gadgets.JsonParse.{prefix_sum_from_right}
use dac_from_legacy_credenti.Gadgets.ScalarConversion.{bit_target}

-- `JWT_HEADER_JSON` of src/credential/jwt.rs
abbrev pub jwt_header_json : List ℕ
jwt_header_json = codes "{\"alg\":\"ES256\",\"typ\":\"JWT\"}"

-- `b'.'`
abbrev pub dot : ℕ
dot = 46

-- `b'A'`
abbrev pub char_a : ℕ
char_a = 65

module _ (b : Builder) where
  -- The loop over the bits of a byte, the most significant first, up to `count` of them.
  unfoldable pub byte_from_bits : (ℕ → ℕ) → ℕ → ℕ
  byte_from_bits bits zero = 0
  byte_from_bits bits (suc bit_in_byte) =
      b.add (byte_from_bits bits bit_in_byte) (b.mul (bits bit_in_byte) (2 ^ (7 - bit_in_byte)))

  unfoldable pub byte_from_message_bits : List Bool → ℕ → ℕ
  unfolding byte_from_bits
  byte_from_message_bits message_bits byte_index =
      byte_from_bits
        (λ bit_in_byte. at (map bit_target message_bits) (byte_index * 8 + bit_in_byte)) 8

  unfoldable pub bytes_from_message_bits : List Bool → ℕ → ℕ → List ℕ
  bytes_from_message_bits message_bits byte_start num_bytes =
      map (λ i. byte_from_message_bits message_bits (byte_start + i)) (range num_bytes)

  -- `base64url_encode` is that of the base64 crate.
  unfoldable pub constrain_jwt_header : (List ℕ → List ℕ) → List Bool → ℕ → Circuit Done
  constrain_jwt_header base64url_encode message_bits header_b64_len = do
    let expected_header_b64 = base64url_encode jwt_header_json
    assert (length expected_header_b64 == header_b64_len)
    for_each (λ i. connect (byte_from_message_bits message_bits i) (at expected_header_b64 i))
        (range (length expected_header_b64))
    connect (byte_from_message_bits message_bits header_b64_len) dot

  -- The mask: the sum of the indicator beyond each position, added up from the right.
  unfoldable pub is_active : List ℕ → List ℕ
  is_active indicator = prefix_sum_from_right b (drop 1 indicator)

  -- The input of the decoder is the payload of the message that is hashed, filled with `A`.
  unfoldable pub payload_rule : ℕ → ℕ → List Bool → ℕ → List ℕ → OneHotTargets → Circuit Done
  payload_rule max_payload_b64_len payload_b64_byte_offset message_bits msg_len_bytes input_ascii
        targets =
      do
        let actual_payload_len = b.sub msg_len_bytes payload_b64_byte_offset
        payload_one_hot ← make_one_hot_indicator b (max_payload_b64_len + 1) 0 targets
        connect payload_one_hot.value actual_payload_len
        let active = is_active payload_one_hot.indicator
        let sha256_payload_bytes =
            bytes_from_message_bits message_bits payload_b64_byte_offset max_payload_b64_len
        for_each
            (λ i.
              let diff = b.sub (at sha256_payload_bytes i) char_a in
              let active_contrib = b.mul (at active i) diff in
              connect (at input_ascii i) (b.add active_contrib char_a))
            (range max_payload_b64_len)
