-- ===== src/Wireguard.antt =====
-- src/wireguard: the peers of the server, and the flows of the packets that it lets through.
pub mod Packet
pub mod Server
