-- ===== src/Gadgets/JsonParse/Find/Laws.antt =====
-- What the search for a claim returns, and when it fails.
use dac_from_legacy_credenti.Prelude.{
  ℕ, zero, suc, ◌+◌, ◌-◌, ◌≤◌, ◌<◌, ◌≡◌, ◌≢◌, ◌↔◌, refl, sym, ap, ◌∙◌, inl, inr, true, false, ◌||◌,
  List, [], ◌∷◌, at, length, take, drop, eq_of_get_or, dec_lt, length-take, length-drop,
  get_or-append_left, get_or-append_right, ◌==◌, arith,
}
use dac_from_legacy_credenti.Prelude.Index.{get_or-take, get_or-drop, All-member}
use dac_from_legacy_credenti.Prelude.Text.{find, is_utf8, is_char_boundary}
use dac_from_legacy_credenti.Prelude.Text.Search.{
  StandsAt, IsFirst, find-IsFirst, find-none, IsFirst-find,
}
use dac_from_legacy_credenti.Prelude.Text.Boundary.{is_utf8-is_char_boundary}
use dac_from_legacy_credenti.Prelude.Outcome.{Option-cases, ok, err, claim_not_found}
use dac_from_legacy_credenti.Gadgets.JsonParse.{quote, colon, left_brace, comma}
use dac_from_legacy_credenti.Gadgets.JsonParse.Claim.{IsClaimAt}
use dac_from_legacy_credenti.Gadgets.JsonParse.Find.{
  ClaimPosition, search_key_of, find_claim_position,
}
use dac_from_legacy_credenti.Gadgets.JsonParse.Find.Found.{
  find_claim_position-Found, length-search_key_of, StandsAt-KeyStands, first-Cut,
}

-- A search that succeeds, over a payload with a quote after the colon: the claim that it returns
-- stands in the payload, with the delimiter just before the start that is returned, and the key in
-- quotes with its colon stands nowhere earlier.
pub find_claim_position-IsClaimAt :
    (json key : List ℕ) (c : ClaimPosition)
    → find_claim_position json key ≡ ok c
    → at json (c.start + length key + 3) ≡ quote
    → (0 < c.start)
      × IsClaimAt json key c.value (c.start - 1)
      × ((j : ℕ) → StandsAt (search_key_of key) json j → c.start ≤ j)
      × (c.key ≡ key)
      × (c.colon_offset ≡ length key + 2)
find_claim_position-IsClaimAt json key c e opens =
    let f = find_claim_position-Found json key c e in
    let there = find-IsFirst (search_key_of key) json c.start f.found in
    let k = StandsAt-KeyStands json key c.start there.stands in
    let from = c.start + length key + 2 + 2 in
    let cut =
      first-Cut json c.value from f.value_len
        (find-IsFirst (quote ∷ []) (drop from json) f.value_len f.closed) f.value_lem in
    let p = c.start - 1 in
    (
      f.later,
      record {
        fits = omega (arith, cut.fits, f.later);
        delimiter = f.prefix;
        key_opens = ap (at json) {y = c.start} (omega (arith, f.later)) ∙ k.opens;
        key_stands =
            λ j lt. ap (at json) {y = c.start + (1 + j)} (omega (arith, f.later)) ∙ k.stands j lt;
        key_closes =
            ap (at json) {y = c.start + (1 + length key)} (omega (arith, f.later)) ∙ k.closes;
        colon_stands =
            ap (at json) {y = c.start + (2 + length key)} (omega (arith, f.later)) ∙ k.colon_stands;
        value_opens = ap (at json) {y = c.start + length key + 3} (omega (arith, f.later)) ∙ opens;
        value_stands =
            λ j lt. ap (at json) {y = from + j} (omega (arith, f.later)) ∙ cut.stands j lt;
        value_closes =
            ap (at json) {y = from + length c.value} (omega (arith, f.later)) ∙ cut.closes;
        no_quote = cut.no_quote;
      },
      there.first,
      f.key_lem,
      f.offset_lem,
    )

module _ (json key value : List ℕ) (p : ℕ) (claim : IsClaimAt json key value p) where
  claim_key-StandsAt : StandsAt (search_key_of key) json (p + 1)
  claim_key-StandsAt =
      let size = length-search_key_of key in
      record { fits = omega (arith, claim.fits, size); same = stands }
    where
      tail : (i : ℕ) → i < 2 → at json (p + 1 + suc (length key + i)) ≡ at (quote ∷ colon ∷ []) i
      tail zero lt = ap (at json) {y = p + (2 + length key)} (omega arith) ∙ claim.key_closes
      tail (suc zero) lt =
          ap (at json) {y = p + (3 + length key)} (omega arith) ∙ claim.colon_stands
      tail (suc (suc i)) lt = absurd (omega (arith, lt))

      stands :
          (j : ℕ) → j < length (search_key_of key) → at json (p + 1 + j) ≡ at (search_key_of key) j
      stands zero lt = ap (at json) {y = p + 1} (omega arith) ∙ claim.key_opens
      stands (suc j) lt = elim (dec_lt j (length key)) [
        | yes inside ↦
            ap (at json) {y = p + (2 + j)} (omega arith)
            ∙ claim.key_stands j inside
            ∙ sym (get_or-append_left key (quote ∷ colon ∷ []) j 0 inside)
        | no other ↦
            let i = j - length key in
            ap (at json) {y = p + 1 + suc (length key + i)} (omega arith)
            ∙ tail i (omega (arith, lt, length-search_key_of key))
            ∙ sym (get_or-append_right key (quote ∷ colon ∷ []) j i 0 (omega arith))
      ]

  abbrev from : ℕ
  from = p + 1 + length key + 2 + 2

  rest_at : (j : ℕ) → at (drop from json) j ≡ at json (p + (5 + length key + j))
  rest_at j = get_or-drop from json j 0 ∙ ap (at json) (omega arith)

  claim_value-IsFirst : IsFirst (quote ∷ []) (drop from json) (length value)
  claim_value-IsFirst = record {
    stands = record { fits = omega (arith, length-drop from json, claim.fits); same = closes };
    first = λ j s. elim (dec_lt j (length value)) [
      | no other ↦ omega arith
      | yes early ↦ absurd (
          All-member (λ c. c ≢ quote) value j 0 claim.no_quote early
            (sym (claim.value_stands j early)
              ∙ sym (rest_at j)
              ∙ ap (at (drop from json)) {x = j} {y = j + 0} (omega arith)
              ∙ s.same 0 (omega arith)))
    ];
  }
    where
      closes : (j : ℕ) → j < 1 → at (drop from json) (length value + j) ≡ at (quote ∷ []) j
      closes zero lt =
          rest_at (length value + 0)
          ∙ ap (at json) {y = p + (5 + length key + length value)} (omega arith)
          ∙ claim.value_closes
      closes (suc j) lt = absurd (omega (arith, lt))

  claim_value-take : take (length value) (drop from json) ≡ value
  claim_value-take =
      let rest = drop from json in
      let size : length (take (length value) rest) ≡ length value =
        length-take (length value) rest ∙ omega (arith, length-drop from json, claim.fits) in
      eq_of_get_or (take (length value) rest) value 0 size (λ i lt.
        let inside : i < length value = omega (arith, lt, size) in
        get_or-take (length value) rest i 0 inside ∙ rest_at i ∙ claim.value_stands i inside)

-- A claim that stands in a UTF-8 payload, whose key in quotes with its colon stands nowhere
-- earlier, is found, with its start and its value.
pub IsClaimAt-find_claim_position :
    (json key value : List ℕ) (position : ℕ)
    → is_utf8 json ≡ true
    → IsClaimAt json key value position
    → ((j : ℕ) → StandsAt (search_key_of key) json j → position + 1 ≤ j)
    → find_claim_position json key
      ≡ ok
          (record { key = key; start = position + 1; value = value; colon_offset = length key + 2 })
unfolding find_claim_position
IsClaimAt-find_claim_position json key value p utf8 claim first =
    let found =
      IsFirst-find (search_key_of key) json (p + 1)
        (record { stands = claim_key-StandsAt json key value p claim; first = first }) in
    let closed =
      IsFirst-find (quote ∷ []) (drop (p + 1 + length key + 2 + 2) json) (length value)
        (claim_value-IsFirst json key value p claim) in
    let boundary =
      is_utf8-is_char_boundary json (p + (4 + length key)) utf8 (omega (arith, claim.fits))
        (rw claim.value_opens (omega arith)) in
    let cut : is_char_boundary json (p + 1 + length key + 2 + 2) ≡ true =
      ap (is_char_boundary json) (omega arith) ∙ boundary in
    let taken = claim_value-take json key value p claim in
    let delimited : (at json (p + 1 - 1) == left_brace || at json (p + 1 - 1) == comma) ≡ true =
      let same : p + 1 - 1 ≡ p = omega arith in rw same (ground (arith, claim.delimiter)) in
    let offset : p + 1 + length key + 2 - (p + 1) ≡ length key + 2 = omega arith in
    let moved : (p + 1 == 0) ≡ false = ground arith in
    rw (utf8, found, moved, delimited, cut, closed, taken, offset) refl

-- Over a UTF-8 payload the search reports that the claim is not found exactly when the key in
-- quotes with its colon stands nowhere in the payload.
pub find_claim_position-claim_not_found :
    (json key : List ℕ)
    → is_utf8 json ≡ true
    → (find_claim_position json key ≡ err claim_not_found)
      ↔ ((j : ℕ) → StandsAt (search_key_of key) json j → ⊥)
unfolding find_claim_position
find_claim_position-claim_not_found json key utf8 =
    elim (Option-cases (find (search_key_of key) json)) [
      | inl nowhere ↦
          (λ _. find-none (search_key_of key) json nowhere, λ _. rw (utf8, nowhere) refl)
      | inr (start, found) ↦ (
        λ e. absurd (ground arith),
        λ none_stands.
            absurd (none_stands start (find-IsFirst (search_key_of key) json start found).stands),
      )
    ]
