-- ===== src/Tests/Tuic.antt =====
-- The theorems on src/tuic, at concrete inputs.
use ruproxy.Tuic.Connection.Parse.{parse_command_with_prefix, parse_body}
use ruproxy.Bytes.{Bytes, bytes_eq}
use ruproxy.Text.{SocketAddr, v4}
use ruproxy.Io.{ok, read_exact, read_u8}
use ruproxy.Prelude.{
  ◌≡◌, refl, subst, true, false, none, some, [], ◌∷◌, ◌++◌, if◌then◌else◌, arith, replicate,
}
use ruproxy.Tuic.Proto.{
  Address, PacketInfo, read_from, to_bytes, domain_address, socket_address, packet, read_from_sync,
  read_datagram_body, read_packet, read_body, build_packet_header, read_v4, is_tuic_prefix,
  read_authenticate, read_from_datagram,
}
use ruproxy.Tuic.Proto.Datagram.{read_from_sync-build_packet_header}
use ruproxy.Tuic.Connection.{
  Env, State, UdpSession, new, handle_uni, handle_authenticate, go_on, session_timeout,
  handle_packet_data, relay_packet, native, datagram, relayed, handle_datagram, after_uni, is_valid,
  when_authenticated, handle_uni_command, validate_token, after_datagram, slice_payload,
  resolve_addr, resolve_addr_list, send, can_send,
}
use ruproxy.Tuic.Connection.Reply.{on_recv}
use ruproxy.Tuic.Connection.Auth.{Reach, Reach-authenticated, next, dgram, start, uni}
use ruproxy.Tuic.Connection.Relay.{go_on-datagram, relay_packets, session_timeout-mute}
use ruproxy.Map.{nat_eq, lookup, insert, remove}

abbrev localhost : SocketAddr
localhost = v4 (record { a = 127; b = 0; c = 0; d = 1 }) 53

abbrev site : Address
site = domain_address (b'a' ∷ b'.' ∷ b'b' ∷ []) 443

read_from_sync-build_packet_header_example :
    read_from_sync (build_packet_header 5 6 (socket_address localhost) 2 ++ (8 ∷ 9 ∷ []))
    ≡ ok (
      packet (record {
        assoc_id = 5;
        pkt_id = 6;
        frag_total = 1;
        frag_id = 0;
        size = 2;
        addr = socket_address localhost;
      }),
      8 ∷ 9 ∷ [],
    )
read_from_sync-build_packet_header_example =
    read_from_sync-build_packet_header 5 6 2 (socket_address localhost) (8 ∷ 9 ∷ []) (omega arith)
      (omega arith) (omega arith) (omega arith)

-- A packet of two bytes for `localhost`, in a datagram.
abbrev info : PacketInfo
info = record {
  assoc_id = 5;
  pkt_id = 6;
  frag_total = 1;
  frag_id = 0;
  size = 2;
  addr = socket_address localhost;
}

abbrev packet_datagram : Bytes
packet_datagram = 5 ∷ 2 ∷ 0 ∷ 5 ∷ 0 ∷ 6 ∷ 1 ∷ 0 ∷ 0 ∷ 2 ∷ 1 ∷ 127 ∷ 0 ∷ 0 ∷ 1 ∷ 0 ∷ 53 ∷ 8 ∷ 9 ∷ []

packet_datagram_parsed : read_from_sync packet_datagram ≡ ok (packet info, 8 ∷ 9 ∷ [])
unfolding read_from_sync read_datagram_body read_packet read_exact read_from read_u8 read_body
    read_v4
packet_datagram_parsed = refl

abbrev uuid : Bytes
uuid = replicate 16 7

abbrev token : Bytes
token = replicate 32 9

-- One user, whose exported key is `token`; every socket can be bound.
abbrev env : Env
env = record {
  users = λ u. if bytes_eq u uuid then some (b'p' ∷ []) else none;
  export_keying_material = λ u p. some token;
  lookup_host = λ d p. some (localhost ∷ []);
  binds = λ id. true;
  udp_relay_ipv6 = false;
}

abbrev authenticate_bytes : Bytes
authenticate_bytes = 5 ∷ 0 ∷ (uuid ++ token)

abbrev logged_in : State
logged_in = record new { auth = some uuid }

handle_uni_run : handle_uni env authenticate_bytes new ≡ logged_in
unfolding handle_uni after_uni handle_uni_command handle_authenticate is_valid validate_token
    bytes_eq is_tuic_prefix parse_command_with_prefix parse_body read_exact read_authenticate
handle_uni_run = refl

abbrev session : UdpSession
session = record { has_v6 = false; listening = true }

abbrev relaying : State
relaying = record logged_in {
  sessions = (5, session) ∷ [];
  udp_mode = some native;
  log = relayed 5 (8 ∷ 9 ∷ []) localhost ∷ [];
}

handle_datagram_run : handle_datagram env packet_datagram logged_in ≡ relaying
unfolding handle_datagram when_authenticated go_on after_datagram slice_payload handle_packet_data
    resolve_addr resolve_addr_list relay_packet send can_send lookup insert remove is_tuic_prefix
    read_from_datagram read_from_sync read_datagram_body read_packet read_exact read_from read_u8
    read_body read_v4 to_bytes
handle_datagram_run = refl

relaying-Reach : Reach env relaying
relaying-Reach = subst (Reach env) handle_datagram_run (
    next (subst (Reach env) handle_uni_run (next start (uni new authenticate_bytes)))
      (dgram logged_in packet_datagram))

Reach-authenticated_example :
    (u : Bytes) × (t : Bytes) × (relaying.auth ≡ some u) × (is_valid env u t ≡ true)
Reach-authenticated_example = Reach-authenticated env relaying-Reach (λ e. cc e)

go_on-datagram_example :
    go_on env (datagram packet_datagram) logged_in
    ≡ handle_packet_data env info (8 ∷ 9 ∷ []) native logged_in
go_on-datagram_example =
    go_on-datagram env packet_datagram logged_in (omega arith) packet_datagram_parsed

-- The session has timed out, and the client has sent a packet for another session.
abbrev quiet : State
quiet = relay_packets env ((6, 3 ∷ [], localhost) ∷ []) (session_timeout env 5 relaying)

session_timeout-mute_example :
    (lookup 5 quiet.sessions ≡ some (record session { listening = false }))
    × (relay_packet env 5 (4 ∷ []) localhost quiet ≡ (
        if can_send env session localhost
        then record quiet { log = relayed 5 (4 ∷ []) localhost ∷ quiet.log }
        else quiet))
    × (on_recv 5 77 localhost (1 ∷ []) quiet ≡ none)
    × (on_recv 5 77 localhost (1 ∷ []) (relay_packet env 5 (4 ∷ []) localhost quiet) ≡ none)
unfolding lookup
session_timeout-mute_example =
    session_timeout-mute env 5 77 ((6, 3 ∷ [], localhost) ∷ []) (4 ∷ []) (1 ∷ []) localhost
      localhost relaying {session = session} refl
