-- ===== src/Prelude/Text.antt =====
-- Rust's `str` as its bytes: the search for a text, and the check of UTF-8.
pub mod Search
pub mod Boundary
pub mod Slices
use Prim.Native.Nat.{ℕ, zero, suc, ◌+◌, ◌-◌, ◌<◌, ◌≤◌}
use mathlib.Core.Path.{◌≡◌, ◌∙◌, refl, ap, sym}
use mathlib.Core.Logic.{◌≢◌}
use mathlib.Core.Bool.{Bool, true, false, ◌&&◌, ◌||◌}
use mathlib.Core.Option.{Option, none, some}
use mathlib.Core.List.{List, [], ◌∷◌, ◌++◌}
use native.Mathlib.Omega.{arith}
use dac_from_legacy_credenti.Prelude.Tests.{◌==◌, leb, if◌then◌else◌, Bool-cases, ==_iff}
use dac_from_legacy_credenti.Prelude.Lists.{length, at}

unfoldable pub starts_with : List ℕ → List ℕ → Bool
starts_with [] text = true
starts_with (c ∷ pattern) [] = false
starts_with (c ∷ pattern) (d ∷ text) = c == d && starts_with pattern text

abbrev pub next_index : Option ℕ → Option ℕ
next_index none = none
next_index (some i) = some (suc i)

-- `str::find`: the first index at which the pattern stands.
unfoldable pub find : List ℕ → List ℕ → Option ℕ
unfolding starts_with
find pattern [] = if starts_with pattern [] then some 0 else none
find pattern (c ∷ text) =
    let rest = find pattern text in
    if starts_with pattern (c ∷ text) then some 0 else next_index rest

-- How many bytes of a character are still to come, and the bounds of the next one.
pub record Utf8 : Type 0 where
  pub pending : ℕ
  pub least : ℕ
  pub greatest : ℕ

abbrev within : ℕ → ℕ → ℕ → Bool
within low high c = leb low c && leb c high

abbrev between : Utf8
between = record { pending = 0; least = 0x80; greatest = 0xbf }

-- The first byte of a character.
utf8_first : ℕ → Option Utf8
utf8_first c =
    if leb c 0x7f
    then some between
    else if within 0xc2 0xdf c
    then some (record { pending = 1; least = 0x80; greatest = 0xbf })
    else if c == 0xe0
    then some (record { pending = 2; least = 0xa0; greatest = 0xbf })
    else if c == 0xed
    then some (record { pending = 2; least = 0x80; greatest = 0x9f })
    else if within 0xe1 0xef c
    then some (record { pending = 2; least = 0x80; greatest = 0xbf })
    else if c == 0xf0
    then some (record { pending = 3; least = 0x90; greatest = 0xbf })
    else if within 0xf1 0xf3 c
    then some (record { pending = 3; least = 0x80; greatest = 0xbf })
    else if c == 0xf4
    then some (record { pending = 3; least = 0x80; greatest = 0x8f })
    else none

utf8_step : Utf8 → ℕ → Option Utf8
unfolding utf8_first
utf8_step state c =
    if state.pending == 0
    then utf8_first c
    else if within state.least state.greatest c
    then some (record { pending = state.pending - 1; least = 0x80; greatest = 0xbf })
    else none

utf8_from : Option Utf8 → List ℕ → Bool
utf8_from none bytes = false
utf8_from (some state) [] = state.pending == 0
utf8_from (some state) (c ∷ bytes) = utf8_from (utf8_step state c) bytes

-- Whether `str::from_utf8` accepts the bytes.
unfoldable pub is_utf8 : List ℕ → Bool
unfolding utf8_from utf8_step
is_utf8 bytes = utf8_from (some between) bytes

-- `str::is_char_boundary`: an index at which a text may be cut.
unfoldable pub is_char_boundary : List ℕ → ℕ → Bool
is_char_boundary bytes i =
    if i == length bytes
    then true
    else if leb (suc i) (length bytes)
    then (if within 0x80 0xbf (at bytes i) then false else true)
    else false

pub starts_with-at :
    (pattern text : List ℕ)
    → starts_with pattern text ≡ true
    → (length pattern ≤ length text) × ((j : ℕ) → j < length pattern → at text j ≡ at pattern j)
unfolding starts_with
starts_with-at [] text h = (omega arith, λ j lt. absurd (omega (arith, lt)))
starts_with-at (c ∷ pattern) [] h = absurd (ground arith)
starts_with-at (c ∷ pattern) (d ∷ text) h =
    let same : c ≡ d = ground arith in
    let rest = starts_with-at pattern text (ground arith) in
    (omega (arith, rest.0), λ j. member same rest.1 j)
  where
    member :
        c ≡ d
        → ((j : ℕ) → j < length pattern → at text j ≡ at pattern j)
        → (j : ℕ) → j < length (c ∷ pattern)
        → at (d ∷ text) j ≡ at (c ∷ pattern) j
    member same rest zero lt = sym same
    member same rest (suc j) lt = rest j (omega (arith, lt))
