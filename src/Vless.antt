-- ===== src/Vless.antt =====
-- src/vless: the protocol.
pub mod Protocol
pub mod Uuid
