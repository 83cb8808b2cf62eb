-- ===== src/Credential.antt =====
-- The credential's data: attributes, and the JWT that carries them.
pub mod Attribute
pub mod Cnf
mod Tests
