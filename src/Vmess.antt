-- ===== src/Vmess.antt =====
-- VMess: src/vmess/mod.rs.
pub mod Crypto
pub mod Header
pub mod Body
pub mod Process
