-- ===== src/Reality.antt =====
-- src/vless/tls/reality.rs: the certificate of a connection, the ClientHello, and who is let in.
pub mod Der
pub mod Hello
pub mod Verify
