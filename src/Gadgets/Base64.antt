-- ===== src/Gadgets/Base64.antt =====
-- src/circuits/gadgets/base64.rs: base64url without padding, decoded in a circuit.
pub mod Alphabet
pub mod Decode
pub mod Fill
mod Tests
use dac_from_legacy_credenti.Prelude.{
  ℕ, ◌+◌, ◌-◌, ◌*◌, ◌/◌, ◌%◌, Bool, true, false, ◌&&◌, not, List, [], ◌∷◌, ◌++◌, map, at, get_or,
  length, leb, ltb, ◌==◌, range, if◌then◌else◌,
}
use dac_from_legacy_credenti.Prelude.Outcome.{Result, ok, err, invalid_character}
use dac_from_legacy_credenti.Plonky2.Field.{Builder}
use dac_from_legacy_credenti.Plonky2.Circuit.{
  Circuit, Done, ◌>>=◌, ◌>>◌, pure, assert, connect, for_each, virtual_target, virtual_targets,
  range_checked,
}
use dac_from_legacy_credenti.Gadgets.{mul_add}

-- `A` to `Z`, `a` to `z`, `0` to `9`, `-` and `_`, as ASCII codes.
abbrev pub base64url_alphabet : List ℕ
base64url_alphabet =
    map (λ i. i + 65) (range 26)
    ++ map (λ i. i + 97) (range 26)
    ++ map (λ i. i + 48) (range 10)
    ++ (45 ∷ 95 ∷ [])

pub base64url_char_to_value : ℕ → Result ℕ
base64url_char_to_value c =
    if leb 65 c && leb c 90
    then ok (c - 65)
    else if leb 97 c && leb c 122
    then ok (c - 97 + 26)
    else if leb 48 c && leb c 57
    then ok (c - 48 + 52)
    else if c == 45
    then ok 62
    else if c == 95
    then ok 63
    else err invalid_character

-- The split targets of one group; a remainder uses those that it has.
pub record GroupSplitTargets : Type 0 where
  pub v1_hi2 : ℕ
  pub v1_lo4 : ℕ
  pub v2_hi4 : ℕ
  pub v2_lo2 : ℕ

abbrev pub no_splits : GroupSplitTargets
no_splits = record { v1_hi2 = 0; v1_lo4 = 0; v2_hi4 = 0; v2_lo2 = 0 }

pub record Base64DecodeTargets : Type 0 where
  pub input_ascii : List ℕ
  pub decoded_bytes : List ℕ
  pub sixbit_values : List ℕ
  pub group_splits : List GroupSplitTargets
  pub remainder_splits : GroupSplitTargets

-- `match remainder { 0 => 0, 2 => 1, 3 => 2, _ => panic!(…) }`
abbrev pub remainder_len : ℕ → ℕ
remainder_len remainder = if remainder == 2 then 1 else if remainder == 3 then 2 else 0

module _ (b : Builder) where
  -- The value is in range, and its character is the input's.
  unfoldable pub char_rule : Base64DecodeTargets → ℕ → Circuit Done
  char_rule t i = do
    range_checked b (at t.sixbit_values i) 6
    connect (at t.input_ascii i) (b.random_access (at t.sixbit_values i) base64url_alphabet)

  -- `v1 = v1_hi2 * 16 + v1_lo4`
  unfoldable pub split_v1 : ℕ → GroupSplitTargets → Circuit Done
  split_v1 v1 s = do
    hi ← virtual_target b s.v1_hi2
    lo ← virtual_target b s.v1_lo4
    connect v1 (mul_add b hi 16 lo)
    range_checked b hi 2
    range_checked b lo 4

  -- `v2 = v2_hi4 * 4 + v2_lo2`
  unfoldable pub split_v2 : ℕ → GroupSplitTargets → Circuit Done
  split_v2 v2 s = do
    hi ← virtual_target b s.v2_hi4
    lo ← virtual_target b s.v2_lo2
    connect v2 (mul_add b hi 4 lo)
    range_checked b hi 4
    range_checked b lo 2

  -- Four values, three bytes.
  unfoldable pub group_rule : Base64DecodeTargets → ℕ → Circuit Done
  group_rule t g = do
    let s = get_or t.group_splits g no_splits
    split_v1 (at t.sixbit_values (g * 4 + 1)) s
    split_v2 (at t.sixbit_values (g * 4 + 2)) s
    connect (at t.decoded_bytes (g * 3)) (mul_add b (at t.sixbit_values (g * 4)) 4 s.v1_hi2)
    connect (at t.decoded_bytes (g * 3 + 1)) (mul_add b s.v1_lo4 16 s.v2_hi4)
    connect (at t.decoded_bytes (g * 3 + 2))
        (mul_add b s.v2_lo2 64 (at t.sixbit_values (g * 4 + 3)))

  -- Two values left, one byte, and no bits beyond it.
  unfoldable pub remainder2_rule : Base64DecodeTargets → ℕ → Circuit Done
  remainder2_rule t g = do
    let s = t.remainder_splits
    split_v1 (at t.sixbit_values (g * 4 + 1)) s
    connect (at t.decoded_bytes (g * 3)) (mul_add b (at t.sixbit_values (g * 4)) 4 s.v1_hi2)
    connect s.v1_lo4 0

  -- Three values left, two bytes, and no bits beyond them.
  unfoldable pub remainder3_rule : Base64DecodeTargets → ℕ → Circuit Done
  remainder3_rule t g = do
    let s = t.remainder_splits
    split_v1 (at t.sixbit_values (g * 4 + 1)) s
    connect (at t.decoded_bytes (g * 3)) (mul_add b (at t.sixbit_values (g * 4)) 4 s.v1_hi2)
    split_v2 (at t.sixbit_values (g * 4 + 2)) s
    connect (at t.decoded_bytes (g * 3 + 1)) (mul_add b s.v1_lo4 16 s.v2_hi4)
    connect s.v2_lo2 0

  unfoldable pub remainder_rule : Base64DecodeTargets → ℕ → ℕ → Circuit Done
  remainder_rule t remainder g =
      if remainder == 2
      then remainder2_rule t g
      else if remainder == 3
      then remainder3_rule t g
      else pure tt

  unfoldable pub make_base64url_decode_circuit :
      ℕ → Base64DecodeTargets → Circuit Base64DecodeTargets
  make_base64url_decode_circuit encoded_len t = do
    assert (ltb 0 encoded_len)
    let full_groups = encoded_len / 4
    let remainder = encoded_len % 4
    assert (not (remainder == 1))
    virtual_targets b encoded_len t.input_ascii
    virtual_targets b (full_groups * 3 + remainder_len remainder) t.decoded_bytes
    virtual_targets b encoded_len t.sixbit_values
    for_each (char_rule t) (range encoded_len)
    for_each (group_rule t) (range full_groups)
    remainder_rule t remainder full_groups
    pure t
