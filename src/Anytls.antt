-- ===== src/Anytls.antt =====
-- src/anytls: the session layer, and the padding schemes.
pub mod Session
pub mod Padding
