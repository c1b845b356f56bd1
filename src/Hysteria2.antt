-- ===== src/Hysteria2.antt =====
-- The Hysteria2 server: src/hysteria2.
pub mod Varint
pub mod Frame
pub mod Fragments
pub mod Tcp
pub mod Gate
pub mod Sessions
