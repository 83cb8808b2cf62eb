-- ===== src/Plonky2.antt =====
-- What the program takes from plonky2 (libs/plonky2): the field, the constraints of a circuit
-- builder, the hash and the recursive verifier. The library itself is a parameter.
pub mod Field
pub mod Circuit
pub mod Satisfy
pub mod Hash
pub mod Recursion
