-- ===== src/Tuic/Connection/Relay.antt =====
-- The UDP relay of a connection, in both directions, and what a session that timed out does.
use ruproxy.Tuic.Proto.Datagram.{
  read_from_sync-build_packet_header, read_from_sync-consumes, packet_header,
}
use ruproxy.Tuic.Proto.{
  read_from_datagram, read_from_sync, socket_address, packet, PacketInfo, build_packet_header,
  to_bytes,
}
use ruproxy.Map.{lookup, insert, lookup-insert, lookup-insert_self}
use ruproxy.Tuic.Proto.AddressCodec.{IsAddress}
use ruproxy.Text.{SocketAddr, v4, v6}
use ruproxy.Prelude.{
  ℕ, List, [], ◌∷◌, ◌==◌, ne→==, subst, if◌then◌else◌, Option-cases, ◌+◌, ◌%◌, ◌^◌, ◌<◌, ◌≡◌, refl,
  ap, true, false, ◌++◌, length, arith, Option, none, some, Bool-cases, inl, inr, ◌∙◌,
  length-append, drop, le→ltb, drop-length_append,
}
use ruproxy.Bytes.{Bytes, AllBytes, IsU16}
use ruproxy.Io.{ok}
use ruproxy.Map.{nat_eq}
use ruproxy.Tuic.Connection.{
  Env, State, UdpMode, UdpSession, go_on, quic, native, after_datagram, relay_packet, slice_payload,
  send, can_send, relayed, session_timeout, is_mapped, datagram, handle_packet_data,
}
use ruproxy.Tuic.Connection.Reply.{
  Outgoing, send_datagram, open_uni, relay_udp_to_client, on_recv, unmapped,
}

cut_header :
    (info : PacketInfo) (dg rest : Bytes)
    → dg ≡ packet_header info ++ rest
    → drop (2 + 8 + length (to_bytes info.addr)) dg ≡ rest
cut_header info dg rest e =
    let n : 2 + 8 + length (to_bytes info.addr) ≡ length (packet_header info) = omega arith in
    rw (n, e) (drop-length_append (packet_header info) rest)

-- The payload that `handle_datagram` cuts out by the recomputed header length is exactly what the
-- parser left behind the header, so the length check never drops a packet that parsed.
pub go_on-datagram :
    (env : Env) (dg : Bytes) (s : State) {info : PacketInfo} {rest : Bytes}
    → AllBytes dg
    → read_from_sync dg ≡ ok (packet info, rest)
    → go_on env (datagram dg) s ≡ handle_packet_data env info rest native s
unfolding go_on after_datagram slice_payload read_from_datagram
go_on-datagram env dg s {info} {rest} bs h =
    let whole = read_from_sync-consumes dg bs h in
    let size : length dg ≡ 2 + 8 + length (to_bytes info.addr) + length rest =
      ap length whole ∙ length-append (packet_header info) rest ∙ omega arith in
    rw h (
      rw (le→ltb (length dg) (2 + 8 + length (to_bytes info.addr)) (omega arith))
        (ap (λ t. handle_packet_data env info t native s) (cut_header info dg rest whole)))

-- The addresses that a socket of the operating system reports.
abbrev pub IsSource : SocketAddr → Type 0
IsSource a = IsAddress (socket_address a)

unmapped-IsSource : (a : SocketAddr) → IsSource a → IsSource (unmapped a)
unfolding unmapped
unmapped-IsSource (v4 ip port) h = h
unmapped-IsSource (v6 ip port) h = elim (Bool-cases (is_mapped ip)) [
  | inl mapped ↦ rw mapped h.8
  | inr plain ↦ rw plain h
]

-- The bytes of a reply, in either mode.
abbrev pub wire : Outgoing → Bytes
wire (send_datagram b) = b
wire (open_uni b) = b

relay_udp_to_client-wire :
    (mode : Option UdpMode) (header payload : Bytes)
    → wire (relay_udp_to_client mode header payload) ≡ header ++ payload
unfolding relay_udp_to_client
relay_udp_to_client-wire none header payload = refl
relay_udp_to_client-wire (some quic) header payload = refl
relay_udp_to_client-wire (some native) header payload = refl

-- A packet from the network for a listening session is sent back in one piece, in either mode, and
-- the client's parser reads from it the session's id, the source address and the same payload; the
-- ids and the length fit 16 bits, and the source is an address of a socket.
pub on_recv-read_from_sync :
    (assoc_id pkt_id : ℕ) (source : SocketAddr) (pkt : Bytes) (s : State) {session : UdpSession}
    → lookup assoc_id s.sessions ≡ some session
    → session.listening ≡ true
    → IsU16 assoc_id
    → IsU16 pkt_id
    → length pkt < 2 ^ 16
    → IsSource source
    → (out : Outgoing) × (on_recv assoc_id pkt_id source pkt s ≡ some out)
      × (read_from_sync (wire out)
          ≡ ok (
            packet (record {
              assoc_id = assoc_id;
              pkt_id = pkt_id;
              frag_total = 1;
              frag_id = 0;
              size = length pkt;
              addr = socket_address (unmapped source);
            }),
            pkt,
          ))
unfolding on_recv
on_recv-read_from_sync assoc_id pkt_id source pkt s {session} found alive ha hp hl ok_source =
    let size : length pkt % 2 ^ 16 ≡ length pkt = omega arith in
    (
      relay_udp_to_client s.udp_mode
          (build_packet_header assoc_id pkt_id (socket_address (unmapped source))
            (length pkt % 2 ^ 16))
          pkt,
      rw (found, on_recv) (rw alive),
      rw (relay_udp_to_client-wire, size)
          (read_from_sync-build_packet_header assoc_id pkt_id (length pkt) _ pkt ha hp hl
            (unmapped-IsSource source ok_source)),
    )

-- The packets that the client sends for any of its associations, in their order.
abbrev pub relay_packets : Env → List (ℕ × Bytes × SocketAddr) → State → State
relay_packets env [] s = s
relay_packets env ((id, payload, target) ∷ ps) s =
    relay_packets env ps (relay_packet env id payload target s)

send-sessions :
    (env : Env) (id : ℕ) (session : UdpSession) (payload : Bytes) (target : SocketAddr) (s : State)
    → (send env id session payload target s).sessions ≡ s.sessions
unfolding send
send-sessions env id session payload target s = ground arith

-- No packet changes the entry of a session that is there.
relay_packet-lookup :
    (env : Env) (id j : ℕ) (payload : Bytes) (target : SocketAddr) (s : State)
    {session : UdpSession}
    → lookup id s.sessions ≡ some session
    → lookup id (relay_packet env j payload target s).sessions ≡ some session
unfolding relay_packet
relay_packet-lookup env id j payload target s {session} found =
    let fresh : UdpSession = record { has_v6 = env.udp_relay_ipv6; listening = true } in
    elim (Option-cases (lookup j s.sessions)) [
      | inr (old, there) ↦
          rw (there, relay_packet) (rw (send-sessions env j old payload target s) found)
      | inl missing ↦ elim (Bool-cases (env.binds j)) [
        | inr refused ↦ rw (missing, relay_packet) (rw refused found)
        | inl bound ↦
            let apart : (j == id) ≡ false = ne→== j id (λ e.
              let same : lookup id s.sessions ≡ none =
                subst (λ x. lookup x s.sessions ≡ none) e missing in
              cc (same, found)) in
            rw (missing, relay_packet)
              (rw bound (
                rw
                  (send-sessions env j fresh payload target
                    (record s { sessions = insert j fresh s.sessions }))
                  (lookup-insert j id fresh s.sessions ∙ rw apart found)))
      ]
    ]

relay_packets-lookup :
    (env : Env) (id : ℕ) (ps : List (ℕ × Bytes × SocketAddr)) (s : State) {session : UdpSession}
    → lookup id s.sessions ≡ some session
    → lookup id (relay_packets env ps s).sessions ≡ some session
relay_packets-lookup env id [] s found = found
relay_packets-lookup env id ((j, payload, target) ∷ ps) s found =
    relay_packets-lookup env id ps (relay_packet env j payload target s)
      (relay_packet-lookup env id j payload target s found)

-- A session whose listening task has ended, in any state.
module _ (env : Env) (id : ℕ) (session : UdpSession) (s : State)
    (muted : lookup id s.sessions ≡ some (record session { listening = false })) where
  on_recv-muted :
      (pkt_id : ℕ) (source : SocketAddr) (reply : Bytes) → on_recv id pkt_id source reply s ≡ none
  unfolding on_recv
  on_recv-muted pkt_id source reply = rw (muted, on_recv) refl

  relay_packet-muted :
      (payload : Bytes) (target : SocketAddr)
      → relay_packet env id payload target s ≡ (
          if can_send env session target
          then record s { log = relayed id payload target ∷ s.log }
          else s)
  unfolding relay_packet send can_send
  relay_packet-muted payload (v4 ip port) = rw (muted, relay_packet) refl
  relay_packet-muted payload (v6 ip port) = rw (muted, relay_packet) refl

-- After the listening task of a session timed out, and after any packets that the client then
-- sends for this and other sessions: the entry is still there and not listening; the next packet
-- for it leaves the map of the sessions as it is, and is sent through the old socket, if that has
-- the address family of its target; and whatever comes from the network for it, no reply is
-- relayed, before that packet or after it.
pub session_timeout-mute :
    (env : Env) (id pkt_id : ℕ) (ps : List (ℕ × Bytes × SocketAddr)) (payload reply : Bytes)
    (target source : SocketAddr) (s : State) {session : UdpSession}
    → lookup id s.sessions ≡ some session
    → (lookup id (relay_packets env ps (session_timeout env id s)).sessions
        ≡ some (record session { listening = false }))
      × (relay_packet env id payload target (relay_packets env ps (session_timeout env id s)) ≡ (
          if can_send env session target
          then record (relay_packets env ps (session_timeout env id s)) {
            log = relayed id payload target ∷ (relay_packets env ps (session_timeout env id s)).log;
          }
          else relay_packets env ps (session_timeout env id s)))
      × (on_recv id pkt_id source reply (relay_packets env ps (session_timeout env id s)) ≡ none)
      × (on_recv id pkt_id source reply
            (relay_packet env id payload target (relay_packets env ps (session_timeout env id s)))
          ≡ none)
unfolding session_timeout
session_timeout-mute env id pkt_id ps payload reply target source s {session} found =
    let t = relay_packets env ps (session_timeout env id s) in
    let dead : UdpSession = record session { listening = false } in
    let e : session_timeout env id s ≡ record s { sessions = insert id dead s.sessions } =
      rw (found, session_timeout) refl in
    let muted : lookup id t.sessions ≡ some dead =
      relay_packets-lookup env id ps (session_timeout env id s)
        (ap (λ x. lookup id x.sessions) e ∙ lookup-insert_self id dead s.sessions) in
    (
      muted,
      relay_packet-muted env id session t muted payload target,
      on_recv-muted env id session t muted pkt_id source reply,
      on_recv-muted env id session (relay_packet env id payload target t)
          (relay_packet-lookup env id id payload target t muted) pkt_id source reply,
    )
