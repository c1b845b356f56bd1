-- ===== src/Tuic.antt =====
-- The TUIC server: src/tuic.
pub mod Proto
pub mod Connection
