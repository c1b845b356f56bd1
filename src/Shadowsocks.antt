-- ===== src/Shadowsocks.antt =====
-- src/shadowsocks: the 2022 protocol.
pub mod Nonce
pub mod Stream
pub mod Header
