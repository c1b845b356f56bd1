-- ===== src/Tests/Wireguard.antt =====
-- The theorems on src/wireguard, at concrete inputs and with a stand-in for boringtun.
use ruproxy.Bytes.{Bytes}
use ruproxy.Prelude.{ℕ, ◌+◌, ◌≡◌, refl, true, none, some, List, [], ◌∷◌, ◌++◌, replicate, inl, inr}
use ruproxy.Wireguard.Packet.{Endpoint, v4, FlowKey, parse_flow_key, parse_ipv4_flow}
use ruproxy.Wireguard.Server.{
  Boringtun, Peer, State, write_to_tunnel_v4, write_to_network, finished, peer_of, on_datagram,
  on_actor_packet, answer, all_to,
}
use ruproxy.Wireguard.Server.Events.{Event, datagram, actor_packet, tick, run}
use ruproxy.Wireguard.Server.Allowed.{IsFiltered, run-IsFiltered}
use ruproxy.Wireguard.Server.First.{IsSingle, run-IsSingle}
use ruproxy.Wireguard.Server.Stranger.{on_datagram-stranger}

abbrev toy : Boringtun ℕ ℕ
toy = record {
  decapsulate = λ t ip raw. (t + 1, write_to_tunnel_v4 raw);
  encapsulate = λ t pkt. (t, write_to_network pkt);
  update_timers = λ t. (t, finished);
  contains = λ n ip. true;
}

abbrev outside : ℕ → Endpoint
outside d = record { ip = v4 (record { a = 192; b = 0; c = 2; d = d }); port = 51820 }

abbrev peers : List (Bytes × Peer ℕ ℕ)
peers =
    (1 ∷ [], record { tunnel = 0; endpoint = none; allowed_ips = 7 ∷ []; last_seen = 0 })
    ∷ (2 ∷ [], record { tunnel = 0; endpoint = none; allowed_ips = 8 ∷ []; last_seen = 0 })
    ∷ []

abbrev start : State ℕ ℕ
start = record { peers = peers; sent = []; delivered = [] }

-- A UDP packet of IPv4.
abbrev udp_packet : Bytes
udp_packet =
    0x45 ∷ (replicate 8 0 ++ (17 ∷ 0 ∷ 0 ∷ 10 ∷ 0 ∷ 0 ∷ 2 ∷ 1 ∷ 1 ∷ 1 ∷ 1 ∷ 4 ∷ 0 ∷ 0 ∷ 53 ∷ []))

abbrev events : List Event
events =
    datagram 3 5 (outside 1) udp_packet
    ∷ actor_packet (1 ∷ []) (9 ∷ [])
    ∷ tick 2
    ∷ datagram 3 6 (outside 2) udp_packet
    ∷ []

run-IsFiltered_example :
    IsFiltered toy ((1 ∷ [], 7 ∷ []) ∷ (2 ∷ [], 8 ∷ []) ∷ []) (run toy events start)
run-IsFiltered_example =
    run-IsFiltered toy events ((1 ∷ [], 7 ∷ []) ∷ (2 ∷ [], 8 ∷ []) ∷ []) start refl refl

run-IsSingle_example : IsSingle toy (1 ∷ []) (run toy events start)
run-IsSingle_example = run-IsSingle toy events (1 ∷ []) start (refl, (inl refl, (inr refl, tt)), tt)

on_datagram-stranger_example :
    (q : Peer ℕ ℕ) × (peer_of toy (on_datagram toy 3 5 (outside 9) (0 ∷ []) start).peers (1 ∷ [])
      ≡ some q)
    × (q.endpoint ≡ some (outside 9))
    × ((pkt : Bytes)
        → (on_actor_packet toy (1 ∷ []) pkt (on_datagram toy 3 5 (outside 9) (0 ∷ []) start)).sent
          ≡ (on_datagram toy 3 5 (outside 9) (0 ∷ []) start).sent
            ++ all_to (outside 9) (answer (toy.encapsulate q.tunnel pkt).1))
on_datagram-stranger_example =
    on_datagram-stranger toy 3 5 (outside 9) (0 ∷ []) (1 ∷ [])
      (record { tunnel = 0; endpoint = none; allowed_ips = 7 ∷ []; last_seen = 0 })
      ((2 ∷ [], record { tunnel = 0; endpoint = none; allowed_ips = 8 ∷ []; last_seen = 0 }) ∷ [])
      start refl refl

-- The packet that the tests send, as a flow.
flow_of_packet : (flow : FlowKey) × (parse_flow_key udp_packet ≡ some flow)
unfolding parse_flow_key parse_ipv4_flow
flow_of_packet = (_, refl)
