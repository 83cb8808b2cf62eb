-- ===== src/Prelude/Text/Boundary.antt =====
-- In UTF-8 a text may be cut after each ASCII byte.
use dac_from_legacy_credenti.Prelude.{
  ℕ, zero, suc, ◌≤◌, ◌<◌, ◌≡◌, ◌⊎◌, inl, inr, true, false, Option, none, some, List, [], ◌∷◌, at,
  length, Bool-cases, arith,
}
use dac_from_legacy_credenti.Prelude.Text.{
  Utf8, between, within, utf8_first, utf8_step, utf8_from, is_utf8, is_char_boundary,
}

-- A byte that may follow, from every state, is no ASCII.
abbrev IsState : Utf8 → Type 0
IsState s = 0x80 ≤ s.least

abbrev Next : Option Utf8 → Type 0
Next none = Unit
Next (some s) = IsState s

utf8_first-Next : (c : ℕ) → Next (utf8_first c)
unfolding utf8_first
utf8_first-Next c = ground arith

utf8_step-Next : (s : Utf8) (c : ℕ) → Next (utf8_step s c)
unfolding utf8_step
utf8_step-Next s c = ground (arith, utf8_first-Next c)

-- After an ASCII byte no character is pending.
utf8_step_ascii :
    (s : Utf8) (c : ℕ)
    → IsState s
    → c < 0x80
    → (utf8_step s c ≡ none) ⊎ (utf8_step s c ≡ some between)
unfolding utf8_step utf8_first
utf8_step_ascii s c h lt = ground arith

-- A character does not begin with a continuation byte.
utf8_first_continues : (c : ℕ) → within 0x80 0xbf c ≡ true → utf8_first c ≡ none
unfolding utf8_first
utf8_first_continues c h = ground arith

starts_clean :
    (s : Utf8) (d : ℕ) (rest : List ℕ)
    → s ≡ between
    → utf8_from (some s) (d ∷ rest) ≡ true
    → within 0x80 0xbf d ≡ false
unfolding utf8_from utf8_step
starts_clean s d rest e h = elim (Bool-cases (within 0x80 0xbf d)) [
  | inr clean ↦ clean
  | inl bad ↦
      let start : utf8_from (utf8_first d) rest ≡ true = rw e at h in
      absurd (ground (arith, rw (utf8_first_continues d bad) at start))
]

after_ascii :
    (r : Option Utf8) (d : ℕ) (rest : List ℕ)
    → (r ≡ none) ⊎ (r ≡ some between)
    → utf8_from r (d ∷ rest) ≡ true
    → within 0x80 0xbf d ≡ false
unfolding utf8_from
after_ascii none d rest e h = ground arith
after_ascii (some s) d rest e h = starts_clean s d rest (ground arith) h

boundary_from :
    (r : Option Utf8) (text : List ℕ) (i : ℕ)
    → Next r
    → utf8_from r text ≡ true
    → at text i < 0x80
    → suc i < length text
    → within 0x80 0xbf (at text (suc i)) ≡ false
unfolding utf8_from
boundary_from none text i st h ascii lt = ground arith
boundary_from (some s) [] i st h ascii lt = absurd (omega (arith, lt))
boundary_from (some s) (c ∷ []) i st h ascii lt = absurd (omega (arith, lt))
boundary_from (some s) (c ∷ d ∷ rest) zero st h ascii lt =
    after_ascii (utf8_step s c) d rest (utf8_step_ascii s c st ascii) h
boundary_from (some s) (c ∷ d ∷ rest) (suc i) st h ascii lt =
    boundary_from (utf8_step s c) (d ∷ rest) i (utf8_step-Next s c) h ascii (omega (arith, lt))

-- In UTF-8, the index after an ASCII byte is a boundary.
pub is_utf8-is_char_boundary :
    (text : List ℕ) (i : ℕ)
    → is_utf8 text ≡ true
    → i < length text
    → at text i < 0x80
    → is_char_boundary text (suc i) ≡ true
unfolding is_utf8 is_char_boundary
is_utf8-is_char_boundary text i h lt ascii =
    ground (arith, boundary_from (some between) text i (omega arith) h ascii)
