-- ===== src/Tests/Hysteria2.antt =====
-- The theorems on src/hysteria2, at concrete inputs.
use ruproxy.Text.{decimal, is_utf8, SocketAddr, v4, socket_addr_text}
use ruproxy.Bytes.{Bytes}
use ruproxy.Prelude.{
  ℕ, ◌≤◌, ◌≡◌, refl, none, [], ◌∷◌, length, arith, All, replicate, length-replicate, List, some,
}
use ruproxy.Hysteria2.Frame.{UdpFrame, datagram_max_payload, build_udp_frames}
use ruproxy.Hysteria2.Frame.Chunks.{build_udp_frames-numbered, FitsDatagram, concat, numbered}
use ruproxy.Hysteria2.Fragments.{relay_frames}
use ruproxy.Hysteria2.Fragments.Reassembly.{relay_frames-reassembles, fragments}
use ruproxy.Hysteria2.Fragments.Duplicates.{relay_frames-replicate}
use ruproxy.Map.{nat_eq, lookup}
use ruproxy.Hysteria2.Tcp.{handle_tcp_bidi}
use ruproxy.Hysteria2.Tcp.Request.{handle_tcp_bidi-tcp_stream, tcp_stream}
use ruproxy.Io.{ok}

abbrev host : Bytes
host = b'[' ∷ b':' ∷ b':' ∷ b'1' ∷ b']' ∷ []

abbrev source : SocketAddr
source = v4 (record { a = 127; b = 0; c = 0; d = 1 }) 53

-- 1500 bytes
abbrev large : Bytes
large = replicate 1500 7

build_udp_frames-numbered_example :
    (parts : List Bytes) × (build_udp_frames 1 2 source large
      ≡ numbered 1 2 (length parts) (socket_addr_text source) 0 parts)
    × (concat parts ≡ large)
    × All (FitsDatagram datagram_max_payload) parts
    × (length parts ≤ 60)
build_udp_frames-numbered_example =
    build_udp_frames-numbered 1 2 source large (omega (arith, length-replicate {A = ℕ} 1500 7))
      (omega (arith, length-replicate {A = ℕ} 1500 7))

abbrev head : UdpFrame
head = record {
  session_id = 1;
  packet_id = 2;
  frag_id = 0;
  frag_total = 3;
  addr = b'a' ∷ [];
  port = 53;
  payload = [];
}

relay_frames-reassembles_example :
    (lookup 2 (relay_frames (fragments head (λ id. id ∷ id ∷ []) (1 ∷ 2 ∷ 0 ∷ [])) []).0 ≡ none)
    × ((relay_frames (fragments head (λ id. id ∷ id ∷ []) (1 ∷ 2 ∷ 0 ∷ [])) []).1
        ≡ record { target = b'a' ∷ b':' ∷ b'5' ∷ b'3' ∷ []; payload = 0 ∷ 0 ∷ 1 ∷ 1 ∷ 2 ∷ 2 ∷ [] }
          ∷ [])
unfolding lookup decimal
relay_frames-reassembles_example =
    relay_frames-reassembles head (λ id. id ∷ id ∷ []) (1 ∷ 2 ∷ 0 ∷ []) [] (omega arith) refl
      (refl, (refl, (refl, tt))) (omega arith) refl

relay_frames-replicate_example :
    (relay_frames (replicate 3 (record head { payload = 4 ∷ [] })) []).1
    ≡ record { target = b'a' ∷ b':' ∷ b'5' ∷ b'3' ∷ []; payload = 4 ∷ [] } ∷ []
unfolding lookup decimal
relay_frames-replicate_example =
    relay_frames-replicate (record head { payload = 4 ∷ [] }) 3 [] (omega arith) refl refl

handle_tcp_bidi-tcp_stream_example :
    handle_tcp_bidi (tcp_stream (b'a' ∷ b':' ∷ b'1' ∷ []) (0 ∷ 0 ∷ []) (7 ∷ []))
    ≡ ok (some (b'a' ∷ b':' ∷ b'1' ∷ []), 7 ∷ [])
unfolding is_utf8
handle_tcp_bidi-tcp_stream_example =
    handle_tcp_bidi-tcp_stream (b'a' ∷ b':' ∷ b'1' ∷ []) (0 ∷ 0 ∷ []) (7 ∷ []) refl (omega arith)
      (omega arith) (omega arith)
