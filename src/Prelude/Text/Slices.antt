-- ===== src/Prelude/Text/Slices.antt =====
-- A text that stands within another is a slice of it.
use dac_from_legacy_credenti.Prelude.{
  ℕ, suc, ◌+◌, ◌-◌, ◌≤◌, ◌<◌, ◌≡◌, refl, sym, ap, ◌∙◌, true, List, ◌++◌, All, at, length, take,
  drop, length-append, length-take, length-drop, get_or-append_left, get_or-append_right,
  eq_of_get_or, dec_lt, arith,
}
use dac_from_legacy_credenti.Prelude.Index.{get_or-take, get_or-drop, All-member}
use dac_from_legacy_credenti.Prelude.Text.{is_utf8, is_char_boundary}
use dac_from_legacy_credenti.Prelude.Text.Search.{StandsAt}
use dac_from_legacy_credenti.Prelude.Text.Boundary.{is_utf8-is_char_boundary}

pub StandsAt-append_left :
    (xs ys text : List ℕ) (i : ℕ) → StandsAt (xs ++ ys) text i → StandsAt xs text i
StandsAt-append_left xs ys text i s = record {
  fits = omega (arith, s.fits, length-append xs ys);
  same =
      λ j lt. s.same j (omega (arith, lt, length-append xs ys)) ∙ get_or-append_left xs ys j 0 lt;
}

pub StandsAt-append_right :
    (xs ys text : List ℕ) (i : ℕ) → StandsAt (xs ++ ys) text i → StandsAt ys text (i + length xs)
StandsAt-append_right xs ys text i s = record {
  fits = omega (arith, s.fits, length-append xs ys);
  same = λ j lt.
      ap (at text) {x = i + length xs + j} {y = i + (length xs + j)} (omega arith)
      ∙ s.same (length xs + j) (omega (arith, lt, length-append xs ys))
      ∙ get_or-append_right xs ys (length xs + j) j 0 refl;
}

pub StandsAt-append :
    (xs ys text : List ℕ) (i k : ℕ)
    → i + length xs ≡ k
    → StandsAt xs text i
    → StandsAt ys text k
    → StandsAt (xs ++ ys) text i
StandsAt-append xs ys text i k e s t = record {
  fits = omega (arith, s.fits, t.fits, length-append xs ys, e);
  same = λ j lt. elim (dec_lt j (length xs)) [
    | yes inside ↦ s.same j inside ∙ sym (get_or-append_left xs ys j 0 inside)
    | no other ↦
        ap (at text) {x = i + j} {y = k + (j - length xs)} (omega (arith, e))
        ∙ t.same (j - length xs) (omega (arith, lt, length-append xs ys))
        ∙ sym (get_or-append_right xs ys j (j - length xs) 0 (omega arith))
  ];
}

pub StandsAt-slice :
    (xs text : List ℕ) (i n : ℕ) → n ≡ length xs → StandsAt xs text i → take n (drop i text) ≡ xs
StandsAt-slice xs text i n e s =
    let rest = drop i text in
    let size : length (take n rest) ≡ length xs =
      length-take n rest ∙ omega (arith, length-drop i text, s.fits, e) in
    eq_of_get_or (take n rest) xs 0 size (λ j lt.
      get_or-take n rest j 0 (omega (arith, lt, size, e))
      ∙ get_or-drop i text j 0
      ∙ s.same j (omega (arith, lt, size)))

pub slice-StandsAt :
    (xs text : List ℕ) (i n : ℕ)
    → i + n ≤ length text
    → take n (drop i text) ≡ xs
    → (length xs ≡ n) × StandsAt xs text i
slice-StandsAt xs text i n fits e =
    let rest = drop i text in
    let size : length xs ≡ n =
      ap length (sym e) ∙ length-take n rest ∙ omega (arith, length-drop i text, fits) in
    (
      size,
      record {
        fits = omega (arith, size, fits);
        same = λ j lt.
            sym (get_or-drop i text j 0)
            ∙ sym (get_or-take n rest j 0 (omega (arith, lt, size)))
            ∙ ap (λ ys. at ys j) e;
      },
    )

-- After an ASCII text there is a boundary.
pub StandsAt-is_char_boundary :
    (xs text : List ℕ) (i k : ℕ)
    → is_utf8 text ≡ true
    → All (λ c. c < 128) xs
    → 0 < length xs
    → i + length xs ≡ k
    → StandsAt xs text i
    → is_char_boundary text k ≡ true
StandsAt-is_char_boundary xs text i k utf8 ascii some e s =
    let last = length xs - 1 in
    ap (is_char_boundary text) {y = suc (i + last)} (omega (arith, e, some))
    ∙ is_utf8-is_char_boundary text (i + last) utf8 (omega (arith, s.fits, some)) (
        rw (s.same last (omega (arith, some)))
          (All-member (λ c. c < 128) xs last 0 ascii (omega (arith, some))))

pub is_char_boundary-le : (text : List ℕ) (i : ℕ) → is_char_boundary text i ≡ true → i ≤ length text
unfolding is_char_boundary
is_char_boundary-le text i h = ground arith
