-- ===== src/Trust.antt =====
-- Signatures, record ids and proof of work (src/trust).
pub mod Sign
pub mod Verify
pub mod Pow
pub mod Normalize
