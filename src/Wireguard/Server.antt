-- ===== src/Wireguard/Server.antt =====
-- The receiving loop of src/wireguard/server.rs, with the task that encrypts and the timer. boringtun's
-- tunnels and the networks of ip_network are parameters. The peers are listed in the order in which the
-- map iterates over them; each has its actor, whose channel is what was delivered to it.
pub mod Events
pub mod Allowed
pub mod First
pub mod Stranger
use ruproxy.Bytes.{Bytes, bytes_eq}
use ruproxy.Prelude.{
  ℕ, zero, suc, Bool, true, false, ◌&&◌, ◌||◌, Option, none, some, List, [], ◌∷◌, ◌++◌, ◌==◌,
  if◌then◌else◌,
}
use ruproxy.Text.{Ipv4, Ipv6, segments}
use ruproxy.Target.{octets4}
use ruproxy.Wireguard.Packet.{IpAddr, v4, v6, Endpoint, packet_src_ip}

-- `TunnResult`
pub data TunnResult : Type 0 where
  finished failed : TunnResult
  write_to_network write_to_tunnel_v4 write_to_tunnel_v6 : Bytes → TunnResult

-- A tunnel of boringtun, and a network.
pub record Boringtun (T : Type 0) (N : Type 0) : Type 0 where
  pub decapsulate : T → IpAddr → Bytes → T × TunnResult
  pub encapsulate : T → Bytes → T × TunnResult
  pub update_timers : T → T × TunnResult
  pub contains : N → IpAddr → Bool

abbrev pub ip_eq : IpAddr → IpAddr → Bool
ip_eq (v4 a) (v4 b) = bytes_eq (octets4 a) (octets4 b)
ip_eq (v6 a) (v6 b) = bytes_eq (segments a) (segments b)
ip_eq _ _ = false

abbrev pub endpoint_eq : Endpoint → Endpoint → Bool
endpoint_eq a b = ip_eq a.ip b.ip && a.port == b.port

pub record Peer (T : Type 0) (N : Type 0) : Type 0 where
  pub tunnel : T
  pub endpoint : Option Endpoint
  pub allowed_ips : List N
  pub last_seen : ℕ

-- What was sent on the socket, and which packets went to the actor of which peer.
pub record State (T : Type 0) (N : Type 0) : Type 0 where
  pub peers : List (Bytes × Peer T N)
  pub sent : List (Endpoint × Bytes)
  pub delivered : List (Bytes × Bytes)

-- `*peer.endpoint == Some(src)`
abbrev pub is_at : Option Endpoint → Endpoint → Bool
is_at none src = false
is_at (some e) src = endpoint_eq e src

-- `WriteToTunnelV4` and `WriteToTunnelV6`
abbrev pub plain : TunnResult → Option Bytes
plain (write_to_tunnel_v4 pkt) = some pkt
plain (write_to_tunnel_v6 pkt) = some pkt
plain _ = none

abbrev pub answer : TunnResult → List Bytes
answer (write_to_network pkt) = pkt ∷ []
answer _ = []

abbrev pub all_to : Endpoint → List Bytes → List (Endpoint × Bytes)
all_to dst [] = []
all_to dst (pkt ∷ pkts) = (dst, pkt) ∷ all_to dst pkts

abbrev pub or_else {ℓ} : {A : Type ℓ} → Option A → Option A → Option A
or_else (some a) o = some a
or_else none o = o

module _ {T : Type 0} {N : Type 0} (b : Boringtun T N) where
  -- `Peer::allows`
  abbrev pub allows_any : List N → IpAddr → Bool
  allows_any [] addr = false
  allows_any (net ∷ nets) addr = b.contains net addr || allows_any nets addr

  -- The fast path of `find_peer`: the peer that was last seen at this address.
  abbrev pub find_at : List (Bytes × Peer T N) → Endpoint → Option (Bytes × Peer T N)
  find_at [] src = none
  find_at ((key, p) ∷ peers) src = if is_at p.endpoint src then some (key, p) else find_at peers src

  -- Any other address is taken for that of the first peer.
  abbrev pub first_peer : List (Bytes × Peer T N) → Option (Bytes × Peer T N)
  first_peer [] = none
  first_peer (entry ∷ peers) = some entry

  unfoldable pub find_peer : List (Bytes × Peer T N) → Endpoint → Option (Bytes × Peer T N)
  find_peer peers src = or_else (find_at peers src) (first_peer peers)

  -- `drain_timers` and the loop of the timer task, for as many rounds as boringtun has packets.
  unfoldable pub drain_timers : ℕ → T → T × List Bytes
  drain_timers zero tun = (tun, [])
  drain_timers (suc rounds) tun =
      let (tun', r) = b.update_timers tun in
      let (last, pkts) = drain_timers rounds tun' in
      elim r [ write_to_network pkt ↦ (last, pkt ∷ pkts) | _ ↦ (tun', []) ]

  -- A change of the peer with a key.
  unfoldable pub adjust :
      Bytes → (Peer T N → Peer T N) → List (Bytes × Peer T N) → List (Bytes × Peer T N)
  adjust key f [] = []
  adjust key f ((k, p) ∷ peers) = (k, if bytes_eq k key then f p else p) ∷ adjust key f peers

  -- The packet goes on if its source is allowed.
  abbrev pub deliver : Bytes → List N → Option Bytes → List (Bytes × Bytes)
  deliver key nets none = []
  deliver key nets (some pkt) = if allows_any nets (packet_src_ip pkt) then (key, pkt) ∷ [] else []

  -- A datagram for a peer that was found.
  unfoldable pub receive : ℕ → ℕ → Bytes → Endpoint → Bytes → Peer T N → State T N → State T N
  receive rounds now raw src key p s =
      let (tun, r) = b.decapsulate p.tunnel src.ip raw in
      let (tun', pkts) = drain_timers rounds tun in
      record {
        peers =
            adjust key (λ q. record q { tunnel = tun'; endpoint = some src; last_seen = now })
              s.peers;
        sent = s.sent ++ (all_to src (answer r) ++ all_to src pkts);
        delivered = s.delivered ++ deliver key p.allowed_ips (plain r);
      }

  abbrev pub receive_for :
      ℕ → ℕ → Endpoint → Bytes → Option (Bytes × Peer T N) → State T N → State T N
  receive_for rounds now src raw none s = s
  receive_for rounds now src raw (some (key, p)) s = receive rounds now raw src key p s

  -- One round of the receiving loop.
  unfoldable pub on_datagram : ℕ → ℕ → Endpoint → Bytes → State T N → State T N
  on_datagram rounds now src raw s = receive_for rounds now src raw (find_peer s.peers src) s

  -- `peers_enc.get(&pub_hex)`
  abbrev pub peer_of : List (Bytes × Peer T N) → Bytes → Option (Peer T N)
  peer_of [] key = none
  peer_of ((k, p) ∷ peers) key = if bytes_eq k key then some p else peer_of peers key

  -- A packet of the actor of a peer is encrypted and sent to where the peer was last seen.
  unfoldable pub encrypt_to : Bytes → Bytes → Peer T N → Option Endpoint → State T N → State T N
  encrypt_to key pkt p none s = s
  encrypt_to key pkt p (some ep) s =
      let (tun, r) = b.encapsulate p.tunnel pkt in
      record s {
        peers = adjust key (λ q. record q { tunnel = tun }) s.peers;
        sent = s.sent ++ all_to ep (answer r);
      }

  abbrev pub encrypt_for : Bytes → Bytes → Option (Peer T N) → State T N → State T N
  encrypt_for key pkt none s = s
  encrypt_for key pkt (some p) s = encrypt_to key pkt p p.endpoint s

  unfoldable pub on_actor_packet : Bytes → Bytes → State T N → State T N
  on_actor_packet key pkt s = encrypt_for key pkt (peer_of s.peers key) s

  -- The timer of one peer.
  unfoldable pub tick_peer : ℕ → Peer T N → Option Endpoint → Peer T N × List (Endpoint × Bytes)
  tick_peer rounds p none = (p, [])
  tick_peer rounds p (some ep) =
      let (tun, pkts) = drain_timers rounds p.tunnel in (record p { tunnel = tun }, all_to ep pkts)

  unfoldable pub tick_all :
      ℕ → List (Bytes × Peer T N) → List (Bytes × Peer T N) × List (Endpoint × Bytes)
  tick_all rounds [] = ([], [])
  tick_all rounds ((k, p) ∷ peers) =
      let (p', out) = tick_peer rounds p p.endpoint in
      let (peers', more) = tick_all rounds peers in ((k, p') ∷ peers', out ++ more)

  unfoldable pub on_tick : ℕ → State T N → State T N
  on_tick rounds s =
      let (peers', out) = tick_all rounds s.peers in
      record s { peers = peers'; sent = s.sent ++ out }
