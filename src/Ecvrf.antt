-- ===== src/Ecvrf.antt =====
-- packages/ecvrf: the RFC 9381 ECVRF library.
pub mod Encoding
pub mod Curve
pub mod Suite
pub mod HashToCurve
pub mod Keypair
pub mod Prove
pub mod Verify
pub mod Expand
