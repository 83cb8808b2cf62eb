-- ===== src/Gadgets/Sha256Variable/Tests.antt =====
-- The padding of a message of three bytes, for a circuit of messages up to a hundred bytes.
use dac_from_legacy_credenti.Prelude.{
  ℕ, ◌*◌, ◌≤◌, ◌≡◌, refl, false, List, [], ◌∷◌, length, replicate, arith,
}
use dac_from_legacy_credenti.Prelude.Outcome.{ok}
use dac_from_legacy_credenti.Sample.Bits.{bits_of, length-bits_of}
use dac_from_legacy_credenti.Gadgets.Sha256Variable.{
  block_count_of, max_blocks, Sha256VarlenWitness, fill_sha256_varlen_circuit_witness,
}
use dac_from_legacy_credenti.Gadgets.Sha256Variable.Padding.{
  IsPadded, fill_sha256_varlen_circuit_witness-IsPadded,
}

abbrev message : List ℕ
message = 97 ∷ 98 ∷ 99 ∷ []

two_blocks : max_blocks 100 ≡ ok 2
unfolding max_blocks block_count_of
two_blocks = refl

one_block : block_count_of 55 ≡ 1
unfolding block_count_of
one_block = refl

next_block : block_count_of 56 ≡ 2
unfolding block_count_of
next_block = refl

fill_sha256_varlen_circuit_witness-IsPadded_example :
    (w : Sha256VarlenWitness) × (fill_sha256_varlen_circuit_witness bits_of
        (2 * 512)
        2
        101
        message
        (replicate 256 false)
      ≡ ok w)
    × (w.num_blocks ≤ 2)
    × IsPadded (bits_of message) w.num_blocks w.message
    × (length w.message ≡ 2 * 512)
fill_sha256_varlen_circuit_witness-IsPadded_example =
    fill_sha256_varlen_circuit_witness-IsPadded bits_of length-bits_of 100 2 2 101 message
      (replicate 256 false) two_blocks (omega arith) (omega arith) refl
