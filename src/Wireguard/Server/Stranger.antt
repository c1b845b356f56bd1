-- ===== src/Wireguard/Server/Stranger.antt =====
-- What a datagram from an unknown address does.
use ruproxy.Prelude.{ℕ, ◌≡◌, refl, ap, ◌∙◌, none, some, List, ◌∷◌, ◌++◌}
use ruproxy.Bytes.{Bytes, bytes_eq_refl}
use ruproxy.Wireguard.Packet.{Endpoint}
use ruproxy.Wireguard.Server.{
  Boringtun, Peer, State, find_at, first_peer, find_peer, adjust, receive, receive_for, on_datagram,
  on_actor_packet, encrypt_for, encrypt_to, peer_of, or_else, all_to, answer, drain_timers,
}

module _ {T : Type 0} {N : Type 0} (b : Boringtun T N) where
  on_actor_packet-sent :
      (key pkt : Bytes) (q : Peer T N) (src : Endpoint) (s : State T N)
      → peer_of b s.peers key ≡ some q
      → q.endpoint ≡ some src
      → (on_actor_packet b key pkt s).sent
        ≡ s.sent ++ all_to src (answer (b.encapsulate q.tunnel pkt).1)
  unfolding on_actor_packet encrypt_to
  on_actor_packet-sent key pkt q src s found at =
      ap (λ o. (encrypt_for b key pkt o s).sent) found
      ∙ ap (λ ep. (encrypt_to b key pkt q ep s).sent) at

  abbrev heard : ℕ → ℕ → Endpoint → Bytes → Peer T N → Peer T N
  heard rounds now src raw p = record p {
    tunnel = (drain_timers b rounds (b.decapsulate p.tunnel src.ip raw).0).0;
    endpoint = some src;
    last_seen = now;
  }

  on_datagram-first :
      (rounds now : ℕ) (src : Endpoint) (raw key : Bytes) (p : Peer T N)
      (peers : List (Bytes × Peer T N)) (s : State T N)
      → s.peers ≡ (key, p) ∷ peers
      → find_at b s.peers src ≡ none
      → peer_of b (on_datagram b rounds now src raw s).peers key ≡ some (heard rounds now src raw p)
  unfolding on_datagram find_peer receive adjust
  on_datagram-first rounds now src raw key p peers s e unknown =
      ap
        (λ o.
          peer_of b (receive_for b rounds now src raw (or_else o (first_peer b s.peers)) s).peers
            key)
        unknown
      ∙ ap (λ ps. peer_of b (receive_for b rounds now src raw (first_peer b ps) s).peers key) e
      ∙ ap
          (λ ps.
            peer_of b
              (adjust b key
                (λ q. record q {
                  tunnel = (drain_timers b rounds (b.decapsulate p.tunnel src.ip raw).0).0;
                  endpoint = some src;
                  last_seen = now;
                })
                ps)
              key)
          e
      ∙ rw (bytes_eq_refl key) refl

  -- A datagram from an address at which no peer was seen, whatever it holds, moves the endpoint of
  -- the first peer to that address, and the next packet of that peer's actor is encrypted and sent
  -- there.
  pub on_datagram-stranger :
      (rounds now : ℕ) (src : Endpoint) (raw key : Bytes) (p : Peer T N)
      (peers : List (Bytes × Peer T N)) (s : State T N)
      → s.peers ≡ (key, p) ∷ peers
      → find_at b s.peers src ≡ none
      → (q : Peer T N) × (peer_of b (on_datagram b rounds now src raw s).peers key ≡ some q)
        × (q.endpoint ≡ some src)
        × ((pkt : Bytes)
            → (on_actor_packet b key pkt (on_datagram b rounds now src raw s)).sent
              ≡ (on_datagram b rounds now src raw s).sent
                ++ all_to src (answer (b.encapsulate q.tunnel pkt).1))
  on_datagram-stranger rounds now src raw key p peers s e unknown =
      let found = on_datagram-first rounds now src raw key p peers s e unknown in
      (
        heard rounds now src raw p,
        found,
        refl,
        λ pkt.
            on_actor_packet-sent key pkt (heard rounds now src raw p) src
              (on_datagram b rounds now src raw s) found refl,
      )
