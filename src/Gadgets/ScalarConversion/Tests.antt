-- ===== src/Gadgets/ScalarConversion/Tests.antt =====
-- The theorem on the conversion, at a digest with three bits set.
use dac_from_legacy_credenti.Prelude.{◌≡◌, refl, true, false, [], ◌∷◌, ◌++◌, map, length, replicate}
use dac_from_legacy_credenti.Plonky2.Circuit.{
  holds, connect_all, for_each, virtual_targets, are_elements,
}
use dac_from_legacy_credenti.Gadgets.Bits.{bits_value}
use dac_from_legacy_credenti.Gadgets.ScalarConversion.{
  DigestToScalarTargets, bit_target, make_digest_to_scalar_circuit, wire_digest_to_ecdsa,
}
use dac_from_legacy_credenti.Gadgets.ScalarConversion.Sound.{
  limbs_value, wire_digest_to_ecdsa-value,
}
use dac_from_legacy_credenti.Sample.Prime.{sample}

-- The first bit, and the bits of 2 ^ 33 and 1.
abbrev digest : DigestToScalarTargets
digest = record {
  digest_bits_targets =
      true ∷ (replicate 221 false ++ (true ∷ (replicate 32 false ++ (true ∷ []))));
  expected_scalar = 1 ∷ 2 ∷ 0 ∷ 0 ∷ 0 ∷ 0 ∷ 0 ∷ 2147483648 ∷ [];
}

digest-holds : holds (make_digest_to_scalar_circuit sample digest) ≡ true
unfolding make_digest_to_scalar_circuit for_each virtual_targets are_elements
digest-holds = refl

digest-wired :
    holds (wire_digest_to_ecdsa digest.digest_bits_targets digest digest.expected_scalar) ≡ true
unfolding wire_digest_to_ecdsa connect_all
digest-wired = refl

wire_digest_to_ecdsa-value_example :
    (length digest.digest_bits_targets ≡ 256)
    × (limbs_value digest.expected_scalar
        ≡ bits_value 0 (map bit_target digest.digest_bits_targets))
wire_digest_to_ecdsa-value_example =
    wire_digest_to_ecdsa-value sample digest.digest_bits_targets digest digest.expected_scalar
      digest-holds digest-wired
