-- ===== src/Credential/Cnf.antt =====
-- src/credential/cnf.rs: the `cnf` block that binds the holder's key in the payload. A text is the
-- list of its bytes.
pub mod Block
pub mod Coords
mod Tests
use Prim.Native.Char.{code}
use Prim.Native.String.{String}
use dac_from_legacy_credenti.Prelude.{
  ℕ, ◌+◌, ◌-◌, Bool, true, false, ◌&&◌, List, [], ◌∷◌, ◌++◌, length, take, drop, leb, list_eq,
}
use dac_from_legacy_credenti.Prelude.Text.{find, is_utf8, is_char_boundary}
use dac_from_legacy_credenti.Prelude.Outcome.{
  Result, ok, ensure, ok_or, ◌>>=◌, ◌>>◌, invalid_utf8, cnf_not_found, bad_cnf_block, panicked,
}

-- The bytes of an ASCII text.
abbrev pub codes : String → List ℕ
codes String.[] = []
codes (String.◌∷◌ c s) = code c ∷ codes s

-- `"cnf":{"jwk":{"kty":"EC","crv":"P-256","x":"`
abbrev pub cnf_prefix : List ℕ
cnf_prefix = codes "\"cnf\":{\"jwk\":{\"kty\":\"EC\",\"crv\":\"P-256\",\"x\":\""

-- `","y":"`
abbrev pub cnf_xy_separator : List ℕ
cnf_xy_separator = codes "\",\"y\":\""

-- `"}}`
abbrev pub cnf_closing : List ℕ
cnf_closing = codes "\"}}"

abbrev pub b64url_coord_len : ℕ
b64url_coord_len = 43

abbrev pub cnf_block_len : ℕ
cnf_block_len =
    length cnf_prefix
    + b64url_coord_len
    + length cnf_xy_separator
    + b64url_coord_len
    + length cnf_closing

unfoldable pub build_cnf_block : List ℕ → List ℕ → List ℕ
build_cnf_block x_b64 y_b64 = cnf_prefix ++ (x_b64 ++ (cnf_xy_separator ++ (y_b64 ++ cnf_closing)))

unfoldable pub find_cnf_start : List ℕ → Result ℕ
unfolding ok_or
find_cnf_start json_payload = do
  ensure (is_utf8 json_payload) invalid_utf8
  ok_or (find cnf_prefix json_payload) cnf_not_found

-- `&text[from..to]`, which panics unless both are boundaries in order.
unfoldable pub slice_str : List ℕ → ℕ → ℕ → Result (List ℕ)
slice_str text from to = do
  ensure (leb from to && is_char_boundary text from && is_char_boundary text to) panicked
  ok (take (to - from) (drop from text))

unfoldable pub extract_cnf_coords : List ℕ → ℕ → Result (List ℕ × List ℕ)
unfolding slice_str
extract_cnf_coords json_payload cnf_start = do
  ensure (is_utf8 json_payload) invalid_utf8
  let x_start = cnf_start + length cnf_prefix
  let x_end = x_start + b64url_coord_len
  let separator_end = x_end + length cnf_xy_separator
  separator ← slice_str json_payload x_end separator_end
  ensure (list_eq separator cnf_xy_separator) bad_cnf_block
  let y_start = separator_end
  let y_end = y_start + b64url_coord_len
  let closing_end = y_end + length cnf_closing
  closing ← slice_str json_payload y_end closing_end
  ensure (list_eq closing cnf_closing) bad_cnf_block
  x_b64 ← slice_str json_payload x_start x_end
  y_b64 ← slice_str json_payload y_start y_end
  ok (x_b64, y_b64)
