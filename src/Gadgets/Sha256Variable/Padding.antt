-- ===== src/Gadgets/Sha256Variable/Padding.antt =====
-- What the assignment of src/circuits/gadgets/sha256_variable.rs writes as the padded message.
use native.Mathlib.Nat.{mod-eq_of_lt}
use mathlib.Core.List.{append_assoc}
use dac_from_legacy_credenti.Prelude.{
  ℕ, zero, suc, ◌+◌, ◌-◌, ◌*◌, ◌^◌, ◌≤◌, ◌<◌, ◌≡◌, refl, sym, ap, ap₂, ◌∙◌, Bool, true, false, List,
  [], ◌∷◌, ◌++◌, map, length, length-append, length-replicate, length-resize, range, replicate,
  resize, leb, ◌==◌, ==_iff, if◌then◌else◌, arith,
}
use dac_from_legacy_credenti.Prelude.Outcome.{ok}
use dac_from_legacy_credenti.Gadgets.Bits.{bits_value}
use dac_from_legacy_credenti.Gadgets.ScalarConversion.{bit_target}
use dac_from_legacy_credenti.Gadgets.Sha256Variable.Digits.{length_bits-value, length_bits-length}
use dac_from_legacy_credenti.Gadgets.Sha256Variable.{
  block_count_of, max_blocks, length_bits, Sha256VarlenWitness, fill_sha256_varlen_circuit_witness,
}

-- A list within the size is extended by copies.
resize-append {ℓ} :
    {A : Type ℓ} (n : ℕ) (d : A) (xs : List A)
    → length xs ≤ n
    → resize n d xs ≡ xs ++ replicate (n - length xs) d
resize-append zero d [] le = refl
resize-append zero d (x ∷ xs) le = absurd (omega arith)
resize-append (suc n) d [] le =
    ap (λ ys. d ∷ ys) (resize-append n d [] (omega arith))
    ∙ ap (λ k. replicate k d) {x = suc (n - 0)} {y = suc n - 0} (omega arith)
resize-append (suc n) d (x ∷ xs) le =
    ap (λ ys. x ∷ ys) (resize-append n d xs (omega arith))
    ∙ ap (λ k. x ∷ (xs ++ replicate k d)) {y = suc n - suc (length xs)} (omega arith)

-- SHA-256's padding of `bits` to `num_blocks` blocks, followed by unused bits.
pub record IsPadded (bits : List Bool) (num_blocks : ℕ) (message : List Bool) : Type 0 where
  pub zeros : ℕ
  pub length_field : List Bool
  pub unused : ℕ
  pub stands :
      message ≡ bits ++ (true ∷ (replicate zeros false ++ (length_field ++ replicate unused false)))
  pub fewest_zeros : zeros < 512
  pub whole_blocks : length bits + 1 + zeros + 64 ≡ num_blocks * 512
  pub field_length : length length_field ≡ 64
  pub field_value : bits_value 0 (map bit_target length_field) ≡ length bits

module _ (bits field : List Bool) (num_blocks : ℕ) where
  -- What the assignment writes for `bits`, before the unused bits.
  abbrev padded_bits : List Bool
  padded_bits =
      bits ++ (true ∷ (replicate (num_blocks * 512 - length bits - 1 - 64) false ++ field))

  padded_bits-length :
      length bits + 65 ≤ num_blocks * 512
      → length field ≡ 64
      → length padded_bits ≡ num_blocks * 512
  padded_bits-length fits size =
      let zeros = num_blocks * 512 - length bits - 1 - 64 in
      length-append bits (true ∷ (replicate zeros false ++ field))
      ∙ ap (λ k. length bits + suc k)
          (length-append (replicate zeros false) field
            ∙ ap₂ ◌+◌ (length-replicate zeros false) size)
      ∙ omega (arith, fits)

  padded_bits-IsPadded :
      (total : ℕ)
      → length bits + 65 ≤ num_blocks * 512
      → num_blocks * 512 < length bits + 65 + 512
      → num_blocks * 512 ≤ total
      → length field ≡ 64
      → bits_value 0 (map bit_target field) ≡ length bits
      → IsPadded bits num_blocks (resize total false padded_bits)
  padded_bits-IsPadded total fits least room size value =
      let zeros_needed = num_blocks * 512 - length bits - 1 - 64 in
      let tail = replicate (total - length padded_bits) false in
      record {
        zeros = zeros_needed;
        length_field = field;
        unused = total - length padded_bits;
        stands =
            resize-append total false padded_bits
              (omega (arith, padded_bits-length fits size, room))
            ∙ append_assoc bits (true ∷ (replicate zeros_needed false ++ field)) tail
            ∙ ap (λ rest. bits ++ (true ∷ rest))
                (append_assoc (replicate zeros_needed false) field tail);
        fewest_zeros = omega (arith, least);
        whole_blocks = omega (arith, fits);
        field_length = size;
        field_value = value;
      }

block_count_of-fits : (len : ℕ) → len * 8 + 65 ≤ block_count_of len * 512
unfolding block_count_of
block_count_of-fits len = omega arith

block_count_of-least : (len : ℕ) → block_count_of len * 512 < len * 8 + 65 + 512
unfolding block_count_of
block_count_of-least len = omega arith

-- A message within the maximum takes no more blocks than the circuit has.
block_count_of-le :
    (len max_len blocks : ℕ)
    → len ≤ max_len
    → max_blocks max_len ≡ ok blocks
    → block_count_of len ≤ blocks
unfolding block_count_of max_blocks
block_count_of-le len max_len blocks le made = ground arith

leb-true : (a b : ℕ) → a ≤ b → leb a b ≡ true
leb-true a b le = ground arith

-- With both checks passed, the assignment writes the padded bits.
fill_sha256_varlen_circuit_witness-ok :
    (array_to_bits : List ℕ → List Bool) (total blocks_len bytes_len : ℕ) (msg : List ℕ)
    (digest : List Bool)
    → leb (block_count_of (length msg) * 512) total ≡ true
    → (length digest == 256) ≡ true
    → length (array_to_bits msg) ≡ length msg * 8
    → (w : Sha256VarlenWitness) × (fill_sha256_varlen_circuit_witness array_to_bits total blocks_len
          bytes_len msg digest
        ≡ ok w)
      × (w.num_blocks ≡ block_count_of (length msg))
      × (w.message
          ≡ resize total false (
              padded_bits
                (array_to_bits msg)
                (length_bits (length msg * 8))
                (block_count_of (length msg))))
unfolding fill_sha256_varlen_circuit_witness
fill_sha256_varlen_circuit_witness-ok array_to_bits total blocks_len bytes_len msg digest room full
      size =
    let count = block_count_of (length msg) in
    (
      record {
        message = resize total false (
            array_to_bits msg
            ++ (true
                ∷ (replicate (count * 512 - length msg * 8 - 1 - 64) false
                    ++ length_bits (length msg * 8))));
        digest = digest;
        num_blocks = count;
        msg_len_bytes = length msg;
        block_indicator = map (λ i. if i + 1 == count then 1 else 0) (range blocks_len);
        msg_byte_indicator = map (λ p. if p == length msg then 1 else 0) (range bytes_len);
      },
      rw room (rw full refl),
      refl,
      ap
          (λ k. resize total false (
            array_to_bits msg
            ++ (true
                ∷ (replicate (count * 512 - k - 1 - 64) false ++ length_bits (length msg * 8)))))
          (sym size),
    )

-- For a message within the maximum of the circuit, and of less than 2 ^ 64 bits, the assignment
-- is total: its message is the SHA-256 padding of the bits of the message to the blocks counted,
-- which are at most those of the circuit, and fills the circuit's message targets exactly.
pub fill_sha256_varlen_circuit_witness-IsPadded :
    (array_to_bits : List ℕ → List Bool)
    → ((bytes : List ℕ) → length (array_to_bits bytes) ≡ length bytes * 8)
    → (max_len blocks blocks_len bytes_len : ℕ) (msg : List ℕ) (digest : List Bool)
    → max_blocks max_len ≡ ok blocks
    → length msg ≤ max_len
    → length msg * 8 < 2 ^ 64
    → length digest ≡ 256
    → (w : Sha256VarlenWitness) × (fill_sha256_varlen_circuit_witness array_to_bits
          (blocks * 512)
          blocks_len
          bytes_len
          msg
          digest
        ≡ ok w)
      × (w.num_blocks ≤ blocks)
      × IsPadded (array_to_bits msg) w.num_blocks w.message
      × (length w.message ≡ blocks * 512)
unfolding fill_sha256_varlen_circuit_witness max_blocks block_count_of
fill_sha256_varlen_circuit_witness-IsPadded array_to_bits size max_len blocks blocks_len bytes_len
      msg digest made le small full =
    let count = block_count_of (length msg) in
    let within : count ≤ blocks = block_count_of-le (length msg) max_len blocks le made in
    let bits = array_to_bits msg in
    let field = length_bits (length msg * 8) in
    let padded : IsPadded bits count (resize (blocks * 512) false (padded_bits bits field count)) =
      padded_bits-IsPadded bits field count (blocks * 512)
        (omega (arith, size msg, block_count_of-fits (length msg)))
        (omega (arith, size msg, block_count_of-least (length msg))) (omega (arith, within))
        (length_bits-length (length msg * 8))
        (length_bits-value (length msg * 8) ∙ mod-eq_of_lt small ∙ sym (size msg)) in
    let (w, filled, counted, written) =
      fill_sha256_varlen_circuit_witness-ok array_to_bits (blocks * 512) blocks_len bytes_len msg
        digest (leb-true (count * 512) (blocks * 512) (omega (arith, within)))
        ((==_iff (length digest) 256).1 full) (size msg) in
    (
      w,
      filled,
      rw counted within,
      rw (counted, written) padded,
      rw written (length-resize (blocks * 512) false (padded_bits bits field count)),
    )
