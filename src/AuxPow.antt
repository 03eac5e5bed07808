-- ===== src/AuxPow.antt =====
-- src/auxpow.rs: merged-mining proofs. The children hold the length prefix of a raw block, the
-- difficulty target, the parent observations and the verifier.
pub mod CompactSize
pub mod Solution
pub mod Target
pub mod Observations
pub mod Verifier
