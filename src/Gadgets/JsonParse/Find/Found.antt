-- ===== src/Gadgets/JsonParse/Find/Found.antt =====
-- What a successful search for a claim went through.
use dac_from_legacy_credenti.Prelude.{
  ℕ, zero, suc, ◌+◌, ◌-◌, ◌≤◌, ◌<◌, ◌≡◌, ◌≢◌, sym, ap, ◌∙◌, ◌⊎◌, inl, inr, some, List, [], ◌∷◌, All,
  at, length, take, drop, length-append, length-take, length-drop, get_or-append_left,
  get_or-append_right, arith,
}
use dac_from_legacy_credenti.Prelude.Index.{get_or-take, get_or-drop, All-of_get_or}
use dac_from_legacy_credenti.Prelude.Text.{find}
use dac_from_legacy_credenti.Prelude.Text.Search.{StandsAt, IsFirst}
use dac_from_legacy_credenti.Prelude.Outcome.{Option-cases, ok}
use dac_from_legacy_credenti.Gadgets.JsonParse.{quote, colon, left_brace, comma}
use dac_from_legacy_credenti.Gadgets.JsonParse.Find.{
  ClaimPosition, search_key_of, find_claim_position,
}

-- A successful search, step by step.
pub record Found (json key : List ℕ) (c : ClaimPosition) : Type 0 where
  pub found : find (search_key_of key) json ≡ some c.start
  pub later : 0 < c.start
  pub prefix : (at json (c.start - 1) ≡ left_brace) ⊎ (at json (c.start - 1) ≡ comma)
  pub value_len : ℕ
  pub closed : find (quote ∷ []) (drop (c.start + length key + 2 + 2) json) ≡ some value_len
  pub value_lem : c.value ≡ take value_len (drop (c.start + length key + 2 + 2) json)
  pub key_lem : c.key ≡ key
  pub offset_lem : c.colon_offset ≡ length key + 2

pub find_claim_position-Found :
    (json key : List ℕ) (c : ClaimPosition) → find_claim_position json key ≡ ok c → Found json key c
unfolding find_claim_position
find_claim_position-Found json key c e = elim (Option-cases (find (search_key_of key) json)) [
  | inl nowhere ↦ absurd (ground arith)
  | inr (start, found) ↦
      elim (Option-cases (find (quote ∷ []) (drop (start + length key + 2 + 2) json))) [
        | inl open_ended ↦ absurd (ground arith)
        | inr (n, closed) ↦
            let same_start : start ≡ c.start = ground arith in
            let there = λ (s : ℕ). drop (s + length key + 2 + 2) json in
            record {
              found = found ∙ ap some same_start;
              later = ground arith;
              prefix = ground arith;
              value_len = n;
              closed = ap (λ (s : ℕ). find (quote ∷ []) (there s)) (sym same_start) ∙ closed;
              value_lem =
                  let same : c.value ≡ take n (there start) = ground arith in
                  same ∙ ap (λ (s : ℕ). take n (there s)) same_start;
              key_lem = ground arith;
              offset_lem = ground arith;
            }
      ]
]

-- A text stands where the search key does: the key in quotes, and the colon.
pub record KeyStands (json key : List ℕ) (start : ℕ) : Type 0 where
  pub fits : start + length key + 3 ≤ length json
  pub opens : at json start ≡ quote
  pub stands : (j : ℕ) → j < length key → at json (start + (1 + j)) ≡ at key j
  pub closes : at json (start + (1 + length key)) ≡ quote
  pub colon_stands : at json (start + (2 + length key)) ≡ colon

pub search_key-tail :
    (key : List ℕ) (i : ℕ) → at (search_key_of key) (1 + length key + i) ≡ at (quote ∷ colon ∷ []) i
search_key-tail key i =
    ap (at (search_key_of key)) {y = suc (length key + i)} (omega arith)
    ∙ get_or-append_right key (quote ∷ colon ∷ []) (length key + i) i 0 (omega arith)

pub length-search_key_of : (key : List ℕ) → length (search_key_of key) ≡ length key + 3
length-search_key_of key = omega (arith, length-append key (quote ∷ colon ∷ []))

pub StandsAt-KeyStands :
    (json key : List ℕ) (start : ℕ)
    → StandsAt (search_key_of key) json start
    → KeyStands json key start
StandsAt-KeyStands json key start s =
    let size = length-search_key_of key in
    record {
      fits = omega (arith, s.fits, size);
      opens =
          ap (at json) {x = start} {y = start + 0} (omega arith) ∙ s.same 0 (omega (arith, size));
      stands = λ j lt.
          s.same (1 + j) (omega (arith, size, lt))
          ∙ ap (at (search_key_of key)) {y = suc j} (omega arith)
          ∙ get_or-append_left key (quote ∷ colon ∷ []) j 0 lt;
      closes =
          s.same (1 + length key) (omega (arith, size))
          ∙ ap (at (search_key_of key)) {y = 1 + length key + 0} (omega arith)
          ∙ search_key-tail key 0;
      colon_stands =
          s.same (2 + length key) (omega (arith, size))
          ∙ ap (at (search_key_of key)) {y = 1 + length key + 1} (omega arith)
          ∙ search_key-tail key 1;
    }

-- What a search for the closing quote cuts off.
pub record Cut (json value : List ℕ) (from : ℕ) : Type 0 where
  pub fits : from + length value < length json
  pub stands : (j : ℕ) → j < length value → at json (from + j) ≡ at value j
  pub closes : at json (from + length value) ≡ quote
  pub no_quote : All (λ c. c ≢ quote) value

pub first-Cut :
    (json value : List ℕ) (from n : ℕ)
    → IsFirst (quote ∷ []) (drop from json) n
    → value ≡ take n (drop from json)
    → Cut json value from
first-Cut json value from n h e =
    let rest = drop from json in
    let whole = length-drop from json in
    let size : length value ≡ n = ap length e ∙ length-take n rest ∙ omega (arith, h.stands.fits) in
    let there : (j : ℕ) → j < n → at value j ≡ at rest j =
      λ j lt. ap (λ v. at v j) e ∙ get_or-take n rest j 0 lt in
    record {
      fits = omega (arith, size, whole, h.stands.fits);
      stands = λ j lt. sym (get_or-drop from json j 0) ∙ sym (there j (omega (arith, lt, size)));
      closes =
          ap (λ k. at json (from + k)) size
          ∙ sym (get_or-drop from json n 0)
          ∙ ap (at rest) {x = n} {y = n + 0} (omega arith)
          ∙ h.stands.same 0 (omega arith);
      no_quote =
          All-of_get_or (λ c. c ≢ quote) value 0
            (λ i lt same.
              let early = h.first i (record {
                fits = omega (arith, lt, size, h.stands.fits);
                same = only i (sym (there i (omega (arith, lt, size))) ∙ same);
              }) in
              omega (arith, early, lt, size));
    }
  where
    only :
        (i : ℕ)
        → at (drop from json) i ≡ quote
        → (j : ℕ) → j < 1
        → at (drop from json) (i + j) ≡ at (quote ∷ []) j
    only i same zero lt = ap (at (drop from json)) {x = i + 0} {y = i} (omega arith) ∙ same
    only i same (suc j) lt = absurd (omega (arith, lt))
