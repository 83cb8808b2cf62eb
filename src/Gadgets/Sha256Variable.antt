-- ===== src/Gadgets/Sha256Variable.antt =====
-- src/circuits/gadgets/sha256_variable.rs: the padding of a message of variable length, and the
-- assignment of the hash circuit. The circuit itself is of the vendored plonky2_sha256.
mod Digits
pub mod Padding
mod Tests
use dac_from_legacy_credenti.Prelude.{
  ℕ, ◌+◌, ◌-◌, ◌*◌, ◌/◌, ◌%◌, ◌^◌, Bool, true, false, List, [], ◌∷◌, ◌++◌, map, length, range,
  replicate, resize, leb, ltb, ◌==◌, if◌then◌else◌,
}
use dac_from_legacy_credenti.Prelude.Outcome.{Result, ok, ensure, panicked, ◌>>=◌, ◌>>◌}

-- `(msg_len_bits + 65).div_ceil(512)`
unfoldable pub block_count_of : ℕ → ℕ
block_count_of msg_len_bytes = (msg_len_bytes * 8 + 65 + 511) / 512

-- The number of blocks that `make_sha256_varlen_circuit` makes.
unfoldable pub max_blocks : ℕ → Result ℕ
unfolding block_count_of
max_blocks max_msg_len_bytes = do
  ensure (ltb 0 max_msg_len_bytes) panicked
  ok (block_count_of max_msg_len_bytes)

-- The message length in bits, as 64 bits in big-endian order.
unfoldable pub length_bits : ℕ → List Bool
length_bits msg_len_bits = map (λ i. (msg_len_bits / 2 ^ (63 - i)) % 2 == 1) (range 64)

pub record Sha256VarlenWitness : Type 0 where
  pub message : List Bool
  pub digest : List Bool
  pub num_blocks : ℕ
  pub msg_len_bytes : ℕ
  pub block_indicator : List ℕ
  pub msg_byte_indicator : List ℕ

-- The assignment for targets of the given lengths; `array_to_bits` is that of plonky2_sha256.
unfoldable pub fill_sha256_varlen_circuit_witness :
    (List ℕ → List Bool) → ℕ → ℕ → ℕ → List ℕ → List Bool → Result Sha256VarlenWitness
unfolding block_count_of length_bits
fill_sha256_varlen_circuit_witness array_to_bits total_bits blocks_len bytes_len msg_bytes
      digest_bits =
    do
      let msg_len = length msg_bytes
      let msg_len_bits = msg_len * 8
      let block_count = block_count_of msg_len
      let padded_bit_len = block_count * 512
      ensure (leb padded_bit_len total_bits) panicked
      ensure (length digest_bits == 256) panicked
      let zeros_needed = padded_bit_len - msg_len * 8 - 1 - 64
      let padded_bits =
          array_to_bits msg_bytes
          ++ (true ∷ (replicate zeros_needed false ++ length_bits msg_len_bits))
      ok (record {
        message = resize total_bits false padded_bits;
        digest = digest_bits;
        num_blocks = block_count;
        msg_len_bytes = msg_len;
        block_indicator = map (λ i. if i + 1 == block_count then 1 else 0) (range blocks_len);
        msg_byte_indicator = map (λ p. if p == msg_len then 1 else 0) (range bytes_len);
      })
