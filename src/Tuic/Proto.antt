-- ===== src/Tuic/Proto.antt =====
-- src/tuic/proto.rs: addresses, commands and the packet header. The sync reader of
-- `read_from_sync` and the async one of `read_from` both take bytes from the front of a stream.
pub mod AddressCodec
pub mod Consumed
pub mod Datagram
use ruproxy.Prelude.{
  ℕ, ◌+◌, ◌≤◌, Bool, true, ◌&&◌, List, [], ◌∷◌, ◌++◌, ◌==◌, leb, not, if◌then◌else◌, length, take,
  drop, get_or, map, ◌%◌,
}
use ruproxy.Bytes.{Bytes, be16, u16_bytes}
use ruproxy.Io.{
  Result, ok, err, and_then, Reader, step, ◌>>=◌, ◌>>◌, done, bail, lift, guard, read_u8,
  read_exact, unknown_address_type, unsupported_version, unexpected_cmd,
}
use ruproxy.Text.{from_utf8, Ipv4, Ipv6, SocketAddr, v4, v6}

abbrev pub version : ℕ
version = 0x05

abbrev pub cmd_authenticate : ℕ
cmd_authenticate = 0x00

abbrev pub cmd_connect : ℕ
cmd_connect = 0x01

abbrev pub cmd_packet : ℕ
cmd_packet = 0x02

abbrev pub cmd_dissociate : ℕ
cmd_dissociate = 0x03

abbrev pub cmd_heartbeat : ℕ
cmd_heartbeat = 0x04

pub data Address : Type 0 where
  none : Address
  domain_address : Bytes → ℕ → Address
  socket_address : SocketAddr → Address

-- Type byte 0x00: a length, then the name and the port in one buffer.
unfoldable pub read_domain : Reader Address
read_domain = do
  len ← read_u8
  domain_buf ← read_exact (len + 2)
  let port = be16 (get_or domain_buf len 0) (get_or domain_buf (len + 1) 0)
  domain ← lift (from_utf8 (take len domain_buf))
  done (domain_address domain port)

unfoldable pub read_v4 : Reader Address
read_v4 = do
  b ← read_exact 6
  let port = be16 (get_or b 4 0) (get_or b 5 0)
  done (
      socket_address (
        v4 (record { a = get_or b 0 0; b = get_or b 1 0; c = get_or b 2 0; d = get_or b 3 0 })
          port))

-- The segment that starts at `b[i]`.
abbrev pub seg : Bytes → ℕ → ℕ → ℕ
seg b i j = be16 (get_or b i 0) (get_or b j 0)

unfoldable pub read_v6 : Reader Address
read_v6 = do
  b ← read_exact 18
  let ip : Ipv6 = record {
    s0 = seg b 0 1;
    s1 = seg b 2 3;
    s2 = seg b 4 5;
    s3 = seg b 6 7;
    s4 = seg b 8 9;
    s5 = seg b 10 11;
    s6 = seg b 12 13;
    s7 = seg b 14 15;
  }
  done (socket_address (v6 ip (seg b 16 17)))

unfoldable pub read_body : ℕ → Reader Address
read_body t =
    if t == 0xff
    then done none
    else if t == 0x00
    then read_domain
    else if t == 0x01
    then read_v4
    else if t == 0x02
    then read_v6
    else bail unknown_address_type

-- `Address::read_from`, and `Command::read_address_sync`, which repeats it over a sync reader.
unfoldable pub read_from : Reader Address
read_from = do t ← read_u8; read_body t

unfoldable pub to_bytes : Address → Bytes
to_bytes none = 0xff ∷ []
to_bytes (domain_address domain port) = 0x00 ∷ (length domain % 256) ∷ (domain ++ u16_bytes port)
to_bytes (socket_address (v4 ip port)) = 0x01 ∷ ip.a ∷ ip.b ∷ ip.c ∷ ip.d ∷ u16_bytes port
to_bytes (socket_address (v6 ip port)) =
    0x02
    ∷ (u16_bytes ip.s0
        ++ (u16_bytes ip.s1
            ++ (u16_bytes ip.s2
                ++ (u16_bytes ip.s3
                    ++ (u16_bytes ip.s4
                        ++ (u16_bytes ip.s5
                            ++ (u16_bytes ip.s6 ++ (u16_bytes ip.s7 ++ u16_bytes port))))))))

pub record AuthInfo : Type 0 where
  pub uuid : Bytes
  pub token : Bytes

pub record PacketInfo : Type 0 where
  pub assoc_id : ℕ
  pub pkt_id : ℕ
  pub frag_total : ℕ
  pub frag_id : ℕ
  pub size : ℕ
  pub addr : Address

pub data Command : Type 0 where
  authenticate : AuthInfo → Command
  connect : Address → Command
  packet : PacketInfo → Command
  dissociate : ℕ → Command
  heartbeat : Command

unfoldable pub read_authenticate : Reader Command
read_authenticate = do
  buf ← read_exact 48
  done (authenticate (record { uuid = take 16 buf; token = drop 16 buf }))

unfoldable pub read_packet : Reader Command
read_packet = do
  buf ← read_exact 8
  addr ← read_from
  done (
      packet (record {
        assoc_id = be16 (get_or buf 0 0) (get_or buf 1 0);
        pkt_id = be16 (get_or buf 2 0) (get_or buf 3 0);
        frag_total = get_or buf 4 0;
        frag_id = get_or buf 5 0;
        size = be16 (get_or buf 6 0) (get_or buf 7 0);
        addr = addr;
      }))

unfoldable pub read_dissociate : Reader Command
read_dissociate = do buf ← read_exact 2; done (dissociate (be16 (get_or buf 0 0) (get_or buf 1 0)))

-- The `match cmd` of `read_from_sync`.
unfoldable pub read_datagram_body : ℕ → Reader Command
read_datagram_body cmd =
    if cmd == cmd_authenticate
    then read_authenticate
    else if cmd == cmd_packet
    then read_packet
    else if cmd == cmd_heartbeat
    then done heartbeat
    else if cmd == cmd_dissociate
    then read_dissociate
    else bail unexpected_cmd

unfoldable pub read_from_sync : Reader Command
read_from_sync = do
  hdr ← read_exact 2
  guard (get_or hdr 0 0 == version) unsupported_version
  read_datagram_body (get_or hdr 1 0)

-- `Command::read_from_datagram`: what follows the command is left to the caller.
unfoldable pub read_from_datagram : Bytes → Result Command
read_from_datagram data' = and_then (read_from_sync data') (λ r. ok r.0)

unfoldable pub is_tuic_prefix : ℕ → ℕ → Bool
is_tuic_prefix p0 p1 = p0 == version && leb p1 cmd_heartbeat

unfoldable pub build_packet_header : ℕ → ℕ → Address → ℕ → Bytes
build_packet_header assoc_id pkt_id addr payload_len =
    version
    ∷ cmd_packet
    ∷ (u16_bytes assoc_id
        ++ (u16_bytes pkt_id ++ (1 ∷ 0 ∷ (u16_bytes payload_len ++ to_bytes addr))))
