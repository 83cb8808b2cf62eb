-- ===== src/Credential/Cnf/Block.antt =====
-- Building the block and reading its coordinates back.
use dac_from_legacy_credenti.Prelude.{
  ℕ, ◌+◌, ◌-◌, ◌<◌, ◌≡◌, refl, sym, ap, ◌∙◌, subst, inl, inr, true, some, List, All, length, take,
  drop, leb, list_eq, list_eq_sound, arith,
}
use dac_from_legacy_credenti.Prelude.Text.{find, is_utf8, is_char_boundary}
use dac_from_legacy_credenti.Prelude.Text.Search.{StandsAt, find-IsFirst}
use dac_from_legacy_credenti.Prelude.Text.Slices.{
  StandsAt-append_left, StandsAt-append_right, StandsAt-append, StandsAt-slice, slice-StandsAt,
  StandsAt-is_char_boundary, is_char_boundary-le,
}
use dac_from_legacy_credenti.Prelude.Outcome.{Option-cases, Result-cases, ok}
use dac_from_legacy_credenti.Credential.Cnf.{
  cnf_prefix, cnf_xy_separator, cnf_closing, b64url_coord_len, build_cnf_block, find_cnf_start,
  slice_str, extract_cnf_coords,
}

-- The five parts of a block, each at its place.
pub record BlockAt (json x y : List ℕ) (s : ℕ) : Type 0 where
  pub prefix_stands : StandsAt cnf_prefix json s
  pub x_stands : StandsAt x json (s + length cnf_prefix)
  pub separator_stands : StandsAt cnf_xy_separator json (s + length cnf_prefix + length x)
  pub y_stands : StandsAt y json (s + length cnf_prefix + length x + length cnf_xy_separator)
  pub closing_stands :
      StandsAt cnf_closing json
        (s + length cnf_prefix + length x + length cnf_xy_separator + length y)

pub StandsAt-BlockAt :
    (json x y : List ℕ) (s : ℕ) → StandsAt (build_cnf_block x y) json s → BlockAt json x y s
unfolding build_cnf_block
StandsAt-BlockAt json x y s h =
    let r1 = StandsAt-append_right cnf_prefix _ json s h in
    let r2 = StandsAt-append_right x _ json _ r1 in
    let r3 = StandsAt-append_right cnf_xy_separator _ json _ r2 in
    record {
      prefix_stands = StandsAt-append_left cnf_prefix _ json s h;
      x_stands = StandsAt-append_left x _ json _ r1;
      separator_stands = StandsAt-append_left cnf_xy_separator _ json _ r2;
      y_stands = StandsAt-append_left y _ json _ r3;
      closing_stands = StandsAt-append_right y _ json _ r3;
    }

pub BlockAt-StandsAt :
    (json x y : List ℕ) (s : ℕ) → BlockAt json x y s → StandsAt (build_cnf_block x y) json s
unfolding build_cnf_block
BlockAt-StandsAt json x y s h = StandsAt-append cnf_prefix _ json s _ refl h.prefix_stands (
    StandsAt-append x _ json _ _ refl h.x_stands (
      StandsAt-append cnf_xy_separator _ json _ _ refl h.separator_stands
        (StandsAt-append y _ json _ _ refl h.y_stands h.closing_stands)))

-- A slice between two boundaries is the text that stands there.
slice_str-StandsAt :
    (xs text : List ℕ) (i k : ℕ)
    → i + length xs ≡ k
    → StandsAt xs text i
    → is_char_boundary text i ≡ true
    → is_char_boundary text k ≡ true
    → slice_str text i k ≡ ok xs
unfolding slice_str
slice_str-StandsAt xs text i k e s from to =
    let ordered : leb i k ≡ true = ground (arith, e) in
    rw (ordered, from, to) (ap ok (StandsAt-slice xs text i (k - i) (omega (arith, e)) s))

slice_str-ok :
    (text xs : List ℕ) (i k n : ℕ)
    → i + n ≡ k
    → slice_str text i k ≡ ok xs
    → (length xs ≡ n) × StandsAt xs text i
unfolding slice_str
slice_str-ok text xs i k n e h =
    let bounded : is_char_boundary text k ≡ true = ground arith in
    let same : take (k - i) (drop i text) ≡ xs = ground arith in
    let (size, s) =
      slice-StandsAt xs text i (k - i) (omega (arith, is_char_boundary-le text k bounded, e))
        same in
    (omega (arith, size, e), s)

-- The block of two coordinates of 43 ASCII characters, wherever it stands in a UTF-8 payload, is
-- read back as these coordinates.
pub extract_cnf_coords-build_cnf_block :
    (json x_b64 y_b64 : List ℕ) (cnf_start : ℕ)
    → is_utf8 json ≡ true
    → length x_b64 ≡ b64url_coord_len
    → length y_b64 ≡ b64url_coord_len
    → All (λ c. c < 128) x_b64
    → All (λ c. c < 128) y_b64
    → StandsAt (build_cnf_block x_b64 y_b64) json cnf_start
    → extract_cnf_coords json cnf_start ≡ ok (x_b64, y_b64)
unfolding extract_cnf_coords
extract_cnf_coords-build_cnf_block json x y s utf8 xl yl xa ya h =
    let b = StandsAt-BlockAt json x y s h in
    let p = s + length cnf_prefix in
    let xe = p + b64url_coord_len in
    let ys = xe + length cnf_xy_separator in
    let ye = ys + b64url_coord_len in
    let ce = ye + length cnf_closing in
    let sep : StandsAt cnf_xy_separator json xe =
      rw (ap (λ n. p + n) (sym xl)) b.separator_stands in
    let yst : StandsAt y json ys =
      rw (ap (λ n. p + n + length cnf_xy_separator) (sym xl)) b.y_stands in
    let cls : StandsAt cnf_closing json ye =
      subst (StandsAt cnf_closing json) (omega (arith, xl, yl)) b.closing_stands in
    let b0 =
      StandsAt-is_char_boundary cnf_prefix json s p utf8 (omega arith) (omega arith) refl
        b.prefix_stands in
    let b1 =
      StandsAt-is_char_boundary x json p xe utf8 xa (omega (arith, xl)) (omega (arith, xl))
        b.x_stands in
    let b2 =
      StandsAt-is_char_boundary cnf_xy_separator json xe ys utf8 (omega arith) (omega arith) refl
        sep in
    let b3 =
      StandsAt-is_char_boundary y json ys ye utf8 ya (omega (arith, yl)) (omega (arith, yl)) yst in
    let b4 =
      StandsAt-is_char_boundary cnf_closing json ye ce utf8 (omega arith) (omega arith) refl cls in
    rw
      (
        utf8,
        slice_str-StandsAt cnf_xy_separator json xe ys refl sep b1 b2,
        slice_str-StandsAt cnf_closing json ye ce refl cls b3 b4,
        slice_str-StandsAt x json p xe (omega (arith, xl)) b.x_stands b0 b1,
        slice_str-StandsAt y json ys ye (omega (arith, yl)) yst b2 b3,
      )
      refl

-- The four slices of a successful read.
record Slices (json x y : List ℕ) (s : ℕ) : Type 0 where
  separator : slice_str json (s + 44 + 43) (s + 44 + 43 + 7) ≡ ok cnf_xy_separator
  closing : slice_str json (s + 44 + 43 + 7 + 43) (s + 44 + 43 + 7 + 43 + 3) ≡ ok cnf_closing
  x_slice : slice_str json (s + 44) (s + 44 + 43) ≡ ok x
  y_slice : slice_str json (s + 44 + 43 + 7) (s + 44 + 43 + 7 + 43) ≡ ok y

extract_cnf_coords-Slices :
    (json x y : List ℕ) (s : ℕ) → extract_cnf_coords json s ≡ ok (x, y) → Slices json x y s
unfolding extract_cnf_coords
extract_cnf_coords-Slices json x y s h =
    elim (Result-cases (slice_str json (s + 44 + 43) (s + 44 + 43 + 7))) [
      | inl (m, bad) ↦ absurd (ground arith)
      | inr (sep, found) ↦
          elim (Result-cases (slice_str json (s + 44 + 43 + 7 + 43) (s + 44 + 43 + 7 + 43 + 3))) [
            | inl (m, bad) ↦ absurd (ground arith)
            | inr (cls, closed) ↦
                let e : list_eq sep cnf_xy_separator ≡ true = ground arith in
                let f : list_eq cls cnf_closing ≡ true = ground arith in
                record {
                  separator = found ∙ ap ok (list_eq_sound sep cnf_xy_separator e);
                  closing = closed ∙ ap ok (list_eq_sound cls cnf_closing f);
                  x_slice = ground arith;
                  y_slice = ground arith;
                }
          ]
    ]

find_cnf_start-find :
    (json : List ℕ) (s : ℕ) → find_cnf_start json ≡ ok s → find cnf_prefix json ≡ some s
unfolding find_cnf_start
find_cnf_start-find json s e = elim (Option-cases (find cnf_prefix json)) [
  | inl nowhere ↦ absurd (ground arith)
  | inr (i, found) ↦ let same : i ≡ s = ground arith in found ∙ ap some same
]

-- Where the block is found and its coordinates are read, the payload holds the block that these
-- coordinates build, and each has 43 characters.
pub find_cnf_start-extract_cnf_coords :
    (json x_b64 y_b64 : List ℕ) (cnf_start : ℕ)
    → find_cnf_start json ≡ ok cnf_start
    → extract_cnf_coords json cnf_start ≡ ok (x_b64, y_b64)
    → StandsAt (build_cnf_block x_b64 y_b64) json cnf_start
      × (length x_b64 ≡ b64url_coord_len)
      × (length y_b64 ≡ b64url_coord_len)
find_cnf_start-extract_cnf_coords json x y s found h =
    let parts = extract_cnf_coords-Slices json x y s h in
    let (xl, xs) = slice_str-ok json x (s + 44) (s + 44 + 43) 43 refl parts.x_slice in
    let (_, sep) =
      slice_str-ok json cnf_xy_separator (s + 44 + 43) (s + 44 + 43 + 7) 7 refl parts.separator in
    let (yl, ys) =
      slice_str-ok json y (s + 44 + 43 + 7) (s + 44 + 43 + 7 + 43) 43 refl parts.y_slice in
    let (_, cls) =
      slice_str-ok json cnf_closing (s + 44 + 43 + 7 + 43) (s + 44 + 43 + 7 + 43 + 3) 3 refl
        parts.closing in
    (
      BlockAt-StandsAt json x y s (record {
        prefix_stands = (find-IsFirst cnf_prefix json s (find_cnf_start-find json s found)).stands;
        x_stands = xs;
        separator_stands = subst (StandsAt cnf_xy_separator json) (omega (arith, xl)) sep;
        y_stands = subst (StandsAt y json) (omega (arith, xl)) ys;
        closing_stands = subst (StandsAt cnf_closing json) (omega (arith, xl, yl)) cls;
      }),
      xl,
      yl,
    )
