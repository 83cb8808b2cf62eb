-- ===== src/Gadgets/JsonParse/Find.antt =====
-- `find_claim_position` of src/circuits/gadgets/json_parse.rs: the search for a claim.
pub mod Found
pub mod Laws
use dac_from_legacy_credenti.Prelude.{
  ℕ, ◌+◌, ◌-◌, Bool, ◌||◌, not, Option, none, some, List, [], ◌∷◌, ◌++◌, at, length, take, drop,
  ◌==◌,
}
use dac_from_legacy_credenti.Prelude.Text.{find, is_utf8, is_char_boundary}
use dac_from_legacy_credenti.Prelude.Outcome.{
  Result, ok, ensure, ok_or, ◌>>=◌, ◌>>◌, invalid_utf8, claim_not_found, claim_at_start,
  bad_claim_prefix, unterminated_value, panicked,
}
use dac_from_legacy_credenti.Gadgets.JsonParse.{quote, colon, left_brace, comma}

pub record ClaimPosition : Type 0 where
  pub key : List ℕ
  pub start : ℕ
  pub value : List ℕ
  pub colon_offset : ℕ

-- `"key":`
abbrev pub search_key_of : List ℕ → List ℕ
search_key_of key = quote ∷ (key ++ (quote ∷ colon ∷ []))

unfoldable pub find_claim_position : List ℕ → List ℕ → Result ClaimPosition
unfolding ok_or
find_claim_position json_payload key = do
  ensure (is_utf8 json_payload) invalid_utf8
  key_start ← ok_or (find (search_key_of key) json_payload) claim_not_found
  ensure (not (key_start == 0)) claim_at_start
  let prefix = at json_payload (key_start - 1)
  ensure (prefix == left_brace || prefix == comma) bad_claim_prefix
  let colon_pos = key_start + length key + 2
  let colon_offset = colon_pos - key_start
  let value_start = colon_pos + 2
  ensure (is_char_boundary json_payload value_start) panicked
  value_len ← ok_or (find (quote ∷ []) (drop value_start json_payload)) unterminated_value
  ok (record {
    key = key;
    start = key_start;
    value = take value_len (drop value_start json_payload);
    colon_offset = colon_offset;
  })
