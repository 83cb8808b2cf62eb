-- ===== src/Sample.antt =====
-- Concrete parameters for the tests: a prime field, a toy hash, and toy proof systems.
pub mod Prime
pub mod Hash
pub mod Proofs
pub mod Delegation
pub mod Bits
