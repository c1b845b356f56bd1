-- ===== src/Tuic/Connection/Reply.antt =====
-- The way back of src/tuic/connection.rs: the listening task of a UDP session, and
-- `relay_udp_to_client`.
use ruproxy.Bytes.{Bytes}
use ruproxy.Prelude.{ℕ, ◌/◌, ◌%◌, ◌^◌, Option, none, some, ◌++◌, length, if◌then◌else◌}
use ruproxy.Tuic.Connection.{State, UdpMode, quic, native, is_mapped}
use ruproxy.Tuic.Proto.{socket_address, build_packet_header}
use ruproxy.Text.{SocketAddr, v4, v6}
use ruproxy.Map.{lookup, nat_eq}

pub data Outgoing : Type 0 where
  send_datagram : Bytes → Outgoing
  open_uni : Bytes → Outgoing

-- How `relay_udp_to_client` sends a packet back, by the mode of the connection.
unfoldable pub relay_udp_to_client : Option UdpMode → Bytes → Bytes → Outgoing
relay_udp_to_client (some quic) header payload = open_uni (header ++ payload)
relay_udp_to_client (some native) header payload = send_datagram (header ++ payload)
relay_udp_to_client none header payload = send_datagram (header ++ payload)

-- The source address as `recv` reports it: a mapped IPv6 address becomes IPv4.
unfoldable pub unmapped : SocketAddr → SocketAddr
unmapped (v4 ip port) = v4 ip port
unmapped (v6 ip port) =
    if is_mapped ip
    then v4 (record { a = ip.s6 / 256; b = ip.s6 % 256; c = ip.s7 / 256; d = ip.s7 % 256 }) port
    else v6 ip port

-- The listening task of `UdpSession::new`, on a packet from the network: `pkt_id` is random.
unfoldable pub on_recv : ℕ → ℕ → SocketAddr → Bytes → State → Option Outgoing
on_recv assoc_id pkt_id source pkt s = elim (lookup assoc_id s.sessions) [
  | none ↦ none
  | some session ↦
      let header =
        build_packet_header assoc_id pkt_id (socket_address (unmapped source))
          (length pkt % 2 ^ 16) in
      if session.listening then some (relay_udp_to_client s.udp_mode header pkt) else none
]
