-- ===== src/Prelude/Text/Search.antt =====
-- What the search finds: the first place, or none.
use dac_from_legacy_credenti.Prelude.{
  ℕ, zero, suc, ◌+◌, ◌≤◌, ◌<◌, ◌≡◌, refl, sym, ap, ◌∙◌, inl, inr, true, false, Option, none, some,
  List, [], ◌∷◌, at, length, Bool-cases, arith,
}
use dac_from_legacy_credenti.Prelude.Text.{starts_with, starts_with-at, find, next_index}

-- The pattern stands at an index of the text.
pub record StandsAt (pattern text : List ℕ) (i : ℕ) : Type 0 where
  pub fits : i + length pattern ≤ length text
  pub same : (j : ℕ) → j < length pattern → at text (i + j) ≡ at pattern j

starts_with-StandsAt :
    (pattern text : List ℕ) → starts_with pattern text ≡ true → StandsAt pattern text 0
starts_with-StandsAt pattern text h =
    let here = starts_with-at pattern text h in
    record {
      fits = omega (arith, here.0);
      same = λ j lt. ap (at text) {x = 0 + j} {y = j} (omega arith) ∙ here.1 j lt;
    }

StandsAt-starts_with :
    (pattern text : List ℕ) → StandsAt pattern text 0 → starts_with pattern text ≡ true
unfolding starts_with
StandsAt-starts_with [] text h = refl
StandsAt-starts_with (c ∷ pattern) [] h = absurd (omega (arith, h.fits))
StandsAt-starts_with (c ∷ pattern) (d ∷ text) h =
    let here : at (d ∷ text) (0 + 0) ≡ c = h.same 0 (omega arith) in
    let rest = StandsAt-starts_with pattern text (record {
      fits = omega (arith, h.fits);
      same = λ j lt.
          ap (at (d ∷ text)) {x = suc (0 + j)} {y = 0 + suc j} (omega arith)
          ∙ h.same (suc j) (omega (arith, lt));
    }) in
    ground (arith, rest, here)

StandsAt-tail :
    (pattern : List ℕ) (c : ℕ) (text : List ℕ) (i : ℕ)
    → StandsAt pattern (c ∷ text) (suc i)
    → StandsAt pattern text i
StandsAt-tail pattern c text i h = record {
  fits = omega (arith, h.fits);
  same = λ j lt. ap (at (c ∷ text)) {x = suc (i + j)} {y = suc i + j} (omega arith) ∙ h.same j lt;
}

StandsAt-cons :
    (pattern : List ℕ) (c : ℕ) (text : List ℕ) (i : ℕ)
    → StandsAt pattern text i
    → StandsAt pattern (c ∷ text) (suc i)
StandsAt-cons pattern c text i h = record {
  fits = omega (arith, h.fits);
  same = λ j lt. ap (at (c ∷ text)) {x = suc i + j} {y = suc (i + j)} (omega arith) ∙ h.same j lt;
}

-- The first place at which a pattern stands.
pub record IsFirst (pattern text : List ℕ) (i : ℕ) : Type 0 where
  pub stands : StandsAt pattern text i
  pub first : (j : ℕ) → StandsAt pattern text j → i ≤ j

-- What an answer of the search says.
abbrev pub Answer : List ℕ → List ℕ → Option ℕ → Type 0
Answer pattern text none = (i : ℕ) → StandsAt pattern text i → ⊥
Answer pattern text (some i) = IsFirst pattern text i

clash : false ≡ true → ⊥
clash h = cc

next-Answer :
    (pattern : List ℕ) (c : ℕ) (text : List ℕ) (r : Option ℕ)
    → starts_with pattern (c ∷ text) ≡ false
    → Answer pattern text r
    → Answer pattern (c ∷ text) (next_index r)
next-Answer pattern c text none no_match h = nowhere
  where
    nowhere : (i : ℕ) → StandsAt pattern (c ∷ text) i → ⊥
    nowhere zero s = clash (sym no_match ∙ StandsAt-starts_with pattern (c ∷ text) s)
    nowhere (suc i) s = h i (StandsAt-tail pattern c text i s)
next-Answer pattern c text (some i) no_match h = record {
  stands = StandsAt-cons pattern c text i h.stands;
  first = later;
}
  where
    later : (j : ℕ) → StandsAt pattern (c ∷ text) j → suc i ≤ j
    later zero s = absurd (clash (sym no_match ∙ StandsAt-starts_with pattern (c ∷ text) s))
    later (suc j) s = omega (arith, h.first j (StandsAt-tail pattern c text j s))

pub find-Answer : (pattern text : List ℕ) → Answer pattern text (find pattern text)
unfolding find
find-Answer pattern [] = elim (Bool-cases (starts_with pattern [])) [
  | inl here ↦
      rw here (record { stands = starts_with-StandsAt pattern [] here; first = λ j s. omega arith })
  | inr no_match ↦ rw no_match (nowhere no_match)
]
  where
    nowhere : starts_with pattern [] ≡ false → (i : ℕ) → StandsAt pattern [] i → ⊥
    nowhere no_match i s =
        let start : i ≡ 0 = omega (arith, s.fits) in
        clash (sym no_match ∙ StandsAt-starts_with pattern [] (rw (sym start) s))
find-Answer pattern (c ∷ text) = elim (Bool-cases (starts_with pattern (c ∷ text))) [
  | inl here ↦
      rw here (record {
        stands = starts_with-StandsAt pattern (c ∷ text) here;
        first = λ j s. omega arith;
      })
  | inr no_match ↦
      rw no_match
        (next-Answer pattern c text (find pattern text) no_match (find-Answer pattern text))
]

-- The search answers `i` exactly when the pattern stands there first.
pub find-IsFirst :
    (pattern text : List ℕ) (i : ℕ) → find pattern text ≡ some i → IsFirst pattern text i
find-IsFirst pattern text i e = rw e at (find-Answer pattern text)

pub find-none :
    (pattern text : List ℕ) → find pattern text ≡ none → (i : ℕ) → StandsAt pattern text i → ⊥
find-none pattern text e = rw e at (find-Answer pattern text)

pub IsFirst-find :
    (pattern text : List ℕ) (i : ℕ) → IsFirst pattern text i → find pattern text ≡ some i
IsFirst-find pattern text i h = same (find pattern text) (find-Answer pattern text)
  where
    same : (r : Option ℕ) → Answer pattern text r → r ≡ some i
    same none no_match = absurd (no_match i h.stands)
    same (some k) found =
        ap some (let e : k ≡ i = omega (arith, found.first i h.stands, h.first k found.stands) in e)
