-- ===== src/Keystore.antt =====
-- The keystore: zallet-core/src/components/keystore.rs.
pub mod Lock
pub mod Mnemonics
mod Tests
