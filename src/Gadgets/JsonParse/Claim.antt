-- ===== src/Gadgets/JsonParse/Claim.antt =====
-- A claim as it stands in a JSON payload, and the attribute that it becomes.
use dac_from_legacy_credenti.Prelude.{
  ℕ, ◌+◌, ◌≤◌, ◌<◌, ◌≡◌, ◌≢◌, ◌⊎◌, List, ◌++◌, All, at, length, resize,
}
use dac_from_legacy_credenti.Gadgets.JsonParse.{quote, colon, left_brace, comma}

-- At `position`: `{` or `,`, and then `"key":"value"`, where the value has no quote.
pub record IsClaimAt (json key value : List ℕ) (position : ℕ) : Type 0 where
  pub fits : position + 6 + length key + length value ≤ length json
  pub delimiter : (at json position ≡ left_brace) ⊎ (at json position ≡ comma)
  pub key_opens : at json (position + 1) ≡ quote
  pub key_stands : (j : ℕ) → j < length key → at json (position + (2 + j)) ≡ at key j
  pub key_closes : at json (position + (2 + length key)) ≡ quote
  pub colon_stands : at json (position + (3 + length key)) ≡ colon
  pub value_opens : at json (position + (4 + length key)) ≡ quote
  pub value_stands :
      (j : ℕ) → j < length value → at json (position + (5 + length key + j)) ≡ at value j
  pub value_closes : at json (position + (5 + length key + length value)) ≡ quote
  pub no_quote : All (λ c. c ≢ quote) value

-- The key and the value, each padded by zeros.
abbrev pub claim_bytes : ℕ → ℕ → List ℕ → List ℕ → List ℕ
claim_bytes max_key_len max_value_len key value =
    resize max_key_len 0 key ++ resize max_value_len 0 value
