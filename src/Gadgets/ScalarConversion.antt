-- ===== src/Gadgets/ScalarConversion.antt =====
-- src/circuits/gadgets/scalar_conversion.rs: the digest's bits as the limbs of a scalar.
pub mod Sound
mod Tests
use dac_from_legacy_credenti.Prelude.{
  ℕ, zero, suc, ◌+◌, ◌-◌, ◌*◌, ◌^◌, Bool, true, false, ◌&&◌, List, [], ◌∷◌, map, at, length, ◌==◌,
  range, if◌then◌else◌,
}
use dac_from_legacy_credenti.Plonky2.Field.{Builder}
use dac_from_legacy_credenti.Plonky2.Circuit.{
  Circuit, Done, ◌>>=◌, ◌>>◌, pure, assert, connect, connect_all, for_each, virtual_targets,
}

-- A scalar is its eight limbs of 32 bits, the least significant first.
pub record DigestToScalarTargets : Type 0 where
  pub digest_bits_targets : List Bool
  pub expected_scalar : List ℕ

-- `bit.target`
abbrev pub bit_target : Bool → ℕ
bit_target bit = if bit then 1 else 0

module _ (b : Builder) where
  -- The loop over the bits of a limb: the sum of `bits(j) * 2 ^ j` for `j` below `count`.
  unfoldable pub limb_from_bits : (ℕ → ℕ) → ℕ → ℕ
  limb_from_bits bits zero = 0
  limb_from_bits bits (suc bit_in_limb) =
      b.add (limb_from_bits bits bit_in_limb) (b.mul (bits bit_in_limb) (2 ^ bit_in_limb))

  unfoldable pub make_digest_to_scalar_circuit :
      DigestToScalarTargets → Circuit DigestToScalarTargets
  unfolding limb_from_bits
  make_digest_to_scalar_circuit t = do
    assert (length t.digest_bits_targets == 256)
    expected_scalar ← virtual_targets b 8 t.expected_scalar
    let digest_targets = map bit_target t.digest_bits_targets
    for_each
        (λ limb_idx.
          connect
            (limb_from_bits (λ bit_in_limb. at digest_targets (255 - (limb_idx * 32 + bit_in_limb)))
              32)
            (at expected_scalar limb_idx))
        (range 8)
    pure t

-- The digest's bits are those of the scalar, and its limbs those of the signed message.
unfoldable pub wire_digest_to_ecdsa : List Bool → DigestToScalarTargets → List ℕ → Circuit Done
wire_digest_to_ecdsa digest_bits digest_to_scalar msg_limbs = do
  connect_all (map bit_target digest_bits) (map bit_target digest_to_scalar.digest_bits_targets)
  connect_all digest_to_scalar.expected_scalar msg_limbs
