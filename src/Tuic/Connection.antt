-- ===== src/Tuic/Connection.antt =====
-- src/tuic/connection.rs: one authenticated QUIC connection. Its state is what the clones of
-- `Connection` share: the authentication, the UDP sessions and the UDP mode; beside it stand the
-- tasks that wait for the authentication, and a log of what was sent on or dialled.
pub mod Parse
pub mod Auth
pub mod Reply
pub mod Relay
use ruproxy.Prelude.{
  ℕ, ◌+◌, ◌≡◌, Bool, true, false, ◌&&◌, ◌||◌, not, List, [], ◌∷◌, ◌++◌, ◌==◌, ltb, if◌then◌else◌,
  length, drop, Option, none, some, ◌/◌, ◌%◌, ◌^◌,
}
use ruproxy.Bytes.{Bytes, bytes_eq}
use ruproxy.Io.{Result, ok, err, read_exact}
use ruproxy.Map.{Map, lookup, insert, remove, nat_eq}
use ruproxy.Text.{SocketAddr, v4, v6, Ipv6}
use ruproxy.Tuic.Proto.{
  Address, domain_address, socket_address, AuthInfo, PacketInfo, Command, authenticate, connect,
  packet, dissociate, heartbeat, to_bytes, read_from_datagram, is_tuic_prefix, build_packet_header,
}
use ruproxy.Tuic.Connection.Parse.{parse_command_with_prefix}

pub data UdpMode : Type 0 where
  quic native : UdpMode

-- `UdpSession`: the listening task ends by a timeout or by `close`.
pub record UdpSession : Type 0 where
  pub has_v6 : Bool
  pub listening : Bool

-- What leaves the server on behalf of the client.
pub data Effect : Type 0 where
  relayed : ℕ → Bytes → SocketAddr → Effect
  dialled : List SocketAddr → Effect

-- A task that waits for the authentication, with what it will go on with.
pub data Pending : Type 0 where
  bi_stream : ℕ → ℕ → Bytes → Pending
  packet_stream : PacketInfo → Bytes → Pending
  datagram : Bytes → Pending

pub record State : Type 0 where
  pub auth : Option Bytes
  pub sessions : Map ℕ UdpSession
  pub udp_mode : Option UdpMode
  pub closed : Bool
  pub pending : List Pending
  pub log : List Effect

-- What the connection asks of quinn, the resolver, the operating system and the configuration.
pub record Env : Type 0 where
  pub users : Bytes → Option Bytes
  pub export_keying_material : Bytes → Bytes → Option Bytes
  pub lookup_host : Bytes → ℕ → Option (List SocketAddr)
  pub binds : ℕ → Bool
  pub udp_relay_ipv6 : Bool

abbrev pub new : State
new = record { auth = none; sessions = []; udp_mode = none; closed = false; pending = []; log = [] }

abbrev pub is_some {ℓ} : {A : Type ℓ} → Option A → Bool
is_some none = false
is_some (some a) = true

abbrev pub is_authenticated : State → Bool
is_authenticated s = is_some s.auth

-- `Ipv6Addr::to_ipv4_mapped` gives an address.
abbrev pub is_mapped : Ipv6 → Bool
is_mapped ip = ip.s0 == 0 && ip.s1 == 0 && ip.s2 == 0 && ip.s3 == 0 && ip.s4 == 0 && ip.s5 == 0xffff

module _ (env : Env) where
  unfoldable pub validate_token : Bytes → Bytes → Bytes → Bool
  validate_token uuid password token = elim (env.export_keying_material uuid password) [
    | some expected ↦ bytes_eq expected token
    | none ↦ false
  ]

  -- The token of a known user checks out.
  unfoldable pub is_valid : Bytes → Bytes → Bool
  is_valid uuid token = elim (env.users uuid) [
    | some password ↦ validate_token uuid password token
    | none ↦ false
  ]

  unfoldable pub handle_authenticate : AuthInfo → State → State
  handle_authenticate info s =
      if is_authenticated s
      then s
      else if is_valid info.uuid info.token
      then record s { auth = some info.uuid }
      else record s { closed = true }

  unfoldable pub resolve_addr_list : Address → Option (List SocketAddr)
  resolve_addr_list Address.none = none
  resolve_addr_list (socket_address sa) = some (sa ∷ [])
  resolve_addr_list (domain_address domain port) = elim (env.lookup_host domain port) [
    | none ↦ none
    | some [] ↦ none
    | some (a ∷ as') ↦ some (a ∷ as')
  ]

  unfoldable pub resolve_addr : Address → Option SocketAddr
  resolve_addr addr = elim (resolve_addr_list addr) [
    | none ↦ none
    | some [] ↦ none
    | some (a ∷ as') ↦ some a
  ]

  -- `dial_tcp` tries the resolved addresses in order.
  unfoldable pub handle_connect : Address → State → State
  handle_connect addr s = elim (resolve_addr_list addr) [
    | none ↦ s
    | some as' ↦ record s { log = dialled as' ∷ s.log }
  ]

  -- The socket of the address family; `to_ipv4_mapped` comes first.
  unfoldable pub can_send : UdpSession → SocketAddr → Bool
  can_send session (v4 ip port) = true
  can_send session (v6 ip port) = is_mapped ip || session.has_v6

  -- `UdpSession::send`
  unfoldable pub send : ℕ → UdpSession → Bytes → SocketAddr → State → State
  send assoc_id session payload target s =
      if can_send session target
      then record s { log = relayed assoc_id payload target ∷ s.log }
      else s

  -- The first packet fixes the mode of the connection.
  abbrev pub set_mode : UdpMode → State → State
  set_mode mode s = record s {
    udp_mode = elim s.udp_mode [ none ↦ some mode | some existing ↦ some existing ];
  }

  -- Get or create the session, and send.
  unfoldable pub relay_packet : ℕ → Bytes → SocketAddr → State → State
  relay_packet assoc_id payload target s = elim (lookup assoc_id s.sessions) [
    | some session ↦ send assoc_id session payload target s
    | none ↦
        let session : UdpSession = record { has_v6 = env.udp_relay_ipv6; listening = true } in
        if env.binds assoc_id
        then send assoc_id session payload target
            (record s { sessions = insert assoc_id session s.sessions })
        else s
  ]

  unfoldable pub handle_packet_data : PacketInfo → Bytes → UdpMode → State → State
  handle_packet_data info payload mode s =
      let s' = set_mode mode s in
      if not (info.frag_total == 1) then s' else elim (resolve_addr info.addr) [
        | none ↦ s'
        | some target ↦ relay_packet info.assoc_id payload target s'
      ]

  -- `remove`, then `close` of the session that was there.
  unfoldable pub handle_dissociate : ℕ → State → State
  handle_dissociate assoc_id s = record s { sessions = remove assoc_id s.sessions }

  -- The `match cmd` of `handle_bi`.
  unfoldable pub after_bi : Result (Command × Bytes) → State → State
  after_bi (ok (connect addr, rest)) s = handle_connect addr s
  after_bi (ok (_, rest)) s = s
  after_bi (err e) s = s

  -- `handle_packet_stream`, behind the wait.
  unfoldable pub after_stream : PacketInfo → Result (Bytes × Bytes) → State → State
  after_stream info (ok (payload, rest)) s = handle_packet_data info payload quic s
  after_stream info (err e) s = s

  -- The payload of a datagram starts behind the header, whose length is computed anew.
  unfoldable pub slice_payload : PacketInfo → Bytes → State → State
  slice_payload info dg s =
      let hdr_len = 2 + 8 + length (to_bytes info.addr) in
      if ltb (length dg) hdr_len then s else handle_packet_data info (drop hdr_len dg) native s

  unfoldable pub after_datagram : Bytes → Result Command → State → State
  after_datagram dg (ok (packet info)) s = slice_payload info dg s
  after_datagram dg (ok _) s = s
  after_datagram dg (err e) s = s

  -- A waiting task, once the connection is authenticated.
  unfoldable pub go_on : Pending → State → State
  go_on (bi_stream p0 p1 recv) s = after_bi (parse_command_with_prefix p0 p1 recv) s
  go_on (packet_stream info recv) s = after_stream info (read_exact info.size recv) s
  go_on (datagram dg) s = after_datagram dg (read_from_datagram dg) s

  -- `if !is_authenticated { select! { wait, sleep } }`: go on at once, or join those that wait.
  unfoldable pub when_authenticated : Pending → State → State
  when_authenticated task s =
      if is_authenticated s then go_on task s else record s { pending = task ∷ s.pending }

  unfoldable pub handle_uni_command : Command → Bytes → State → State
  handle_uni_command (authenticate info) rest s = handle_authenticate info s
  handle_uni_command (packet info) rest s = when_authenticated (packet_stream info rest) s
  handle_uni_command (dissociate id) rest s = handle_dissociate id s
  handle_uni_command (connect addr) rest s = s
  handle_uni_command heartbeat rest s = s

  unfoldable pub after_uni : Result (Command × Bytes) → State → State
  after_uni (ok (c, rest)) s = handle_uni_command c rest s
  after_uni (err e) s = s

  unfoldable pub handle_uni : Bytes → State → State
  handle_uni (p0 ∷ p1 ∷ recv) s =
      if is_tuic_prefix p0 p1 then after_uni (parse_command_with_prefix p0 p1 recv) s else s
  handle_uni _ s = s

  unfoldable pub handle_bi : Bytes → State → State
  handle_bi (p0 ∷ p1 ∷ recv) s =
      if is_tuic_prefix p0 p1 then when_authenticated (bi_stream p0 p1 recv) s else s
  handle_bi _ s = s

  unfoldable pub handle_datagram : Bytes → State → State
  handle_datagram (p0 ∷ p1 ∷ dg) s =
      if is_tuic_prefix p0 p1 then when_authenticated (datagram (p0 ∷ p1 ∷ dg)) s else s
  handle_datagram _ s = s

  -- The watchdog task of `handle`, when its sleep ends.
  unfoldable pub watchdog : State → State
  watchdog s = if is_authenticated s then s else record s { closed = true }

  -- The listening task of a session ends at its timeout: the entry of the map stays.
  unfoldable pub session_timeout : ℕ → State → State
  session_timeout id s = elim (lookup id s.sessions) [
    | some session ↦ record s {
      sessions = insert id (record session { listening = false }) s.sessions;
    }
    | none ↦ s
  ]
