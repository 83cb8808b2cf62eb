-- ===== src/Lib.antt =====
-- Delegatable anonymous credentials from legacy credentials: a holder of a signed JWT proves its
-- validity in a base circuit, wraps that proof, delegates the wrapped credential in steps that
-- may hide attributes and tighten a depth cap, and presents the last step to a verifier.
--
-- The parts, and the files that model them:
--
-- - Prelude, Prelude/Lists, Prelude/Tests, Prelude/Outcome: the shared names; lists and tests over
--   native numbers; `Result` with one error for each message of the modelled code. Prelude/Index
--   has the laws of indexing; Prelude/Text has strings as their UTF-8 bytes, with the search and
--   the slices that Rust's `str` offers.
-- - Plonky2/Field, Plonky2/Hash, Plonky2/Recursion: what the code relies on of plonky2, as records
--   of operations with their documented behaviour: the field and the gadgets of `CircuitBuilder`,
--   the hash with its Merkle tree, proofs with the recursive verifiers. They are parameters.
-- - Plonky2/Circuit: how a function that builds a circuit is read. `Circuit A` is the value of the
--   target that the function returns, at one assignment of all targets, with whether all the
--   constraints laid down hold there. A virtual target is an argument; a `connect`, a range check
--   and an `assert!` are constraints; Plonky2/Satisfy puts a circuit together that holds. What a circuit proves is then a statement about `holds`.
-- - Credential/Attribute: src/credential/attribute.rs.
-- - Merkle, Merkle/InCircuit, Merkle/Power: src/utils/merkle.rs; `fold_levels` is the `while` loop
--   over the levels of the tree, on fuel; the number of leaves is enough of it.
-- - Layout, Layout/Counts: src/circuits/layout.rs.
-- - Delegate: the delegation circuit of src/circuits/delegate.rs. `delegation_circuit` has its
--   rules in the order of the source: forwarded inputs, level, cap, conditional verification,
--   wrapper digest, attribute hashes and the two commitments. Delegate/Prove: the depth-cap guard
--   and the assignments of the provers. The other children hold the proofs: what each rule says
--   (Rules), what a satisfied circuit says (Step, Sound), and, under knowledge soundness
--   (`Extracts`), what a proof says of the proofs below it (Genuine, Chain, Origin), and what the
--   circuit leaves open of the wrapper's key (OtherCap).
-- - Present: the presentation circuit of src/circuits/present.rs, with its soundness (Sound) and
--   what a verifier learns from it (Disclosure).
--   Present/Witness is the assignment that the prover builds, with the public inputs that plonky2
--   derives from it; Complete says that an honest one is accepted.
-- - Gadgets, Gadgets/ArraySlice, Gadgets/Base64: src/circuits/gadgets/mod.rs, array_slice.rs and
--   base64.rs. Gadgets/Substring is the reading of a substring that both parsers share.
-- - Gadgets/JsonParse: src/circuits/gadgets/json_parse.rs, with the circuit of a claim (Claim says
--   what it proves), the witness that fills it (Fill) and the search for a claim (Find).
-- - Credential/Cnf, Gadgets/CnfParse: src/credential/cnf.rs and src/circuits/gadgets/cnf_parse.rs,
--   the key-confirmation block of a JWT outside and inside a circuit.
-- - Gadgets/Bits, Gadgets/ScalarConversion, Gadgets/Sha256Variable: numbers as bits;
--   src/circuits/gadgets/scalar_conversion.rs; the padding and the assignment of
--   src/circuits/gadgets/sha256_variable.rs.
-- - JwtBase: of src/circuits/jwt_base.rs, the bytes of the hashed message, the rule on the JWT header
--   (Header) and the rule that ties the decoder to the hashed payload (Payload).
-- - Wrapper: src/circuits/jwt_wrapper.rs, with the circuit that verifies a base proof and its
--   prover. Wrapper/Build is the co-build with the delegation circuit, of
--   src/circuits/delegate.rs, over the circuits that plonky2 compiles, which are a parameter;
--   Wrapper/Build/Aligned has how it ends. Wrapper/Origin follows a presentation to the base.
-- - Sample: a prime field, a toy hash and toy proof systems, at which the tests run.
--
-- A field element is a number below the field's order, which is a prime above `2 ^ 32`; sums,
-- differences and products are reduced by it, and wrap-around is part of every statement.
-- A chain of delegation is not bounded; its theorems are by induction on the level. A
-- `debug_assert!` is read as in a debug build, where it panics.
--
-- A verified proof stands for a satisfying assignment only where a theorem assumes knowledge
-- soundness of the circuit concerned, under that circuit's whole key. The co-build takes at most
-- one retry, as in the source.
--
-- Not modelled: the JWT itself with its parsing, signing and dummy tokens (src/credential/jwt.rs),
-- of which only the header constant is here; the rest of the base circuit, whose proofs the wrapper
-- takes from a parameter; the ECDSA gadget and the hash circuit, which are of the vendored
-- libraries; the choice of configuration, the generation of witnesses by plonky2, and benchmarks.
pub mod Prelude
pub mod Plonky2
pub mod Credential
pub mod Merkle
pub mod Layout
pub mod Delegate
pub mod Gadgets
pub mod Present
pub mod JwtBase
pub mod Wrapper
pub mod Sample
