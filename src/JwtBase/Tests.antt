-- ===== src/JwtBase/Tests.antt =====
-- The rules on the header and the payload, at a message of 39 characters.
use dac_from_legacy_credenti.Prelude.{
  ℕ, ◌+◌, ◌≤◌, arith, ◌<◌, ◌≡◌, refl, Bool, true, List, [], ◌∷◌, ◌++◌, at, length,
}
use dac_from_legacy_credenti.Plonky2.Circuit.{
  holds, for_each, virtual_target, virtual_targets, are_elements,
}
use dac_from_legacy_credenti.Sample.Bits.{bits_of, encode}
use dac_from_legacy_credenti.Sample.Prime.{sample}
use dac_from_legacy_credenti.JwtBase.{
  jwt_header_json, dot, byte_from_bits, byte_from_message_bits, constrain_jwt_header, char_a,
  bytes_from_message_bits, is_active, payload_rule,
}
use dac_from_legacy_credenti.Gadgets.{
  OneHotTargets, make_one_hot_indicator, sum_from, weighted_from,
}
use dac_from_legacy_credenti.Gadgets.JsonParse.{prefix_sum_from_right}
use dac_from_legacy_credenti.JwtBase.Payload.{payload_rule-message_byte}
use dac_from_legacy_credenti.JwtBase.Header.{message_byte, constrain_jwt_header-message_byte}

-- The header, the dot, and a payload of two characters, followed by the padding's first bytes.
abbrev message : List Bool
message = bits_of (encode jwt_header_json ++ (dot ∷ (101 ∷ (121 ∷ (128 ∷ (0 ∷ []))))))

message-holds : holds (constrain_jwt_header sample encode message 36) ≡ true
unfolding constrain_jwt_header byte_from_message_bits byte_from_bits for_each
message-holds = refl

constrain_jwt_header-message_byte_example :
    (length (encode jwt_header_json) ≡ 36)
    × ((i : ℕ) → i < 36 → message_byte message i ≡ at (encode jwt_header_json) i)
    × (message_byte message 36 ≡ dot)
constrain_jwt_header-message_byte_example =
    constrain_jwt_header-message_byte sample encode message 36 message-holds

-- A payload of two characters, of three at most.
abbrev two_of_three : OneHotTargets
two_of_three = record { indicator = 0 ∷ 0 ∷ 1 ∷ 0 ∷ []; value = 2 }

abbrev decoder_input : List ℕ
decoder_input = 101 ∷ 121 ∷ 65 ∷ []

payload-holds : holds (payload_rule sample 3 37 message 39 decoder_input two_of_three) ≡ true
unfolding payload_rule bytes_from_message_bits byte_from_message_bits byte_from_bits is_active
    make_one_hot_indicator sum_from weighted_from virtual_target virtual_targets are_elements
    prefix_sum_from_right for_each
payload-holds = refl

payload_rule-message_byte_example :
    (len : ℕ) × (len ≤ 3)
    × (39 ≡ len + 37)
    × ((i : ℕ) → i < len → at decoder_input i ≡ message_byte message (37 + i))
    × ((i : ℕ) → len ≤ i → i < 3 → at decoder_input i ≡ char_a)
payload_rule-message_byte_example =
    payload_rule-message_byte sample 3 37 message 39 decoder_input two_of_three (omega arith)
      (omega arith) payload-holds
