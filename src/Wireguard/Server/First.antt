-- ===== src/Wireguard/Server/First.antt =====
-- Which peers the server ever talks to.
use ruproxy.Prelude.{
  ℕ, ◌≡◌, refl, sym, ◌∙◌, subst, Option, none, some, List, [], ◌∷◌, All, ◌⊎◌, inl, inr, Bool-cases,
  All-append,
}
use ruproxy.Bytes.{Bytes, bytes_eq, bytes_eq_iff}
use ruproxy.Wireguard.Packet.{Endpoint, packet_src_ip}
use ruproxy.Wireguard.Server.{
  Boringtun, Peer, State, find_at, first_peer, find_peer, adjust, receive, receive_for, on_datagram,
  on_actor_packet, encrypt_for, encrypt_to, peer_of, on_tick, tick_all, tick_peer, is_at, deliver,
  allows_any, or_else, drain_timers,
}
use ruproxy.Wireguard.Server.Events.{Event, datagram, actor_packet, tick, on_event, run}

module _ {T : Type 0} {N : Type 0} (b : Boringtun T N) where
  -- Nothing was heard of any peer but the first.
  abbrev pub IsSilent : Bytes → List (Bytes × Peer T N) → Type 0
  IsSilent first peers = All (λ entry. (entry.0 ≡ first) ⊎ (entry.1.endpoint ≡ none)) peers

  abbrev IsFirst : Bytes → Option (Bytes × Peer T N) → Type 0
  IsFirst first none = Unit
  IsFirst first (some (k, p)) = k ≡ first

  find_at-IsFirst :
      (first : Bytes) (peers : List (Bytes × Peer T N)) (src : Endpoint)
      → IsSilent first peers
      → IsFirst first (find_at b peers src)
  find_at-IsFirst first [] src h = tt
  find_at-IsFirst first ((k, p) ∷ peers) src h = elim (Bool-cases (is_at p.endpoint src)) [
    | inl e ↦ rw e (elim h.0 [ inl same ↦ same | inr silent ↦ absurd (cc (rw (silent) at e)) ])
    | inr e ↦ rw e (find_at-IsFirst first peers src h.1)
  ]

  adjust-IsSilent :
      (first : Bytes) (f : Peer T N → Peer T N) (peers : List (Bytes × Peer T N))
      → IsSilent first peers
      → IsSilent first (adjust b first f peers)
  unfolding adjust
  adjust-IsSilent first f [] h = tt
  adjust-IsSilent first f ((k, p) ∷ peers) h = (
    elim (Bool-cases (bytes_eq k first)) [
      | inl e ↦ inl ((bytes_eq_iff k first).0 e)
      | inr e ↦ rw e h.0
    ],
    adjust-IsSilent first f peers h.1,
  )

  -- A change that leaves the endpoints alone.
  adjust-keeps :
      (first key : Bytes) (f : Peer T N → Peer T N) (peers : List (Bytes × Peer T N))
      → ((p : Peer T N) → (f p).endpoint ≡ p.endpoint)
      → IsSilent first peers
      → IsSilent first (adjust b key f peers)
  unfolding adjust
  adjust-keeps first key f [] g h = tt
  adjust-keeps first key f ((k, p) ∷ peers) g h = (
    elim (Bool-cases (bytes_eq k key)) [
      | inl e ↦ rw e (elim h.0 [ inl same ↦ inl same | inr silent ↦ inr (g p ∙ silent) ])
      | inr e ↦ rw e h.0
    ],
    adjust-keeps first key f peers g h.1,
  )

  abbrev pub HasFirst : Bytes → List (Bytes × Peer T N) → Type 0
  HasFirst first [] = Unit
  HasFirst first ((k, p) ∷ peers) = k ≡ first

  adjust-HasFirst :
      (first key : Bytes) (f : Peer T N → Peer T N) (peers : List (Bytes × Peer T N))
      → HasFirst first peers
      → HasFirst first (adjust b key f peers)
  unfolding adjust
  adjust-HasFirst first key f [] h = tt
  adjust-HasFirst first key f ((k, p) ∷ peers) h = h

  or_else-IsFirst :
      (first : Bytes) (o : Option (Bytes × Peer T N)) (peers : List (Bytes × Peer T N))
      → IsFirst first o
      → HasFirst first peers
      → IsFirst first (or_else o (first_peer b peers))
  or_else-IsFirst first (some (k, p)) peers h g = h
  or_else-IsFirst first none [] h g = tt
  or_else-IsFirst first none ((k, p) ∷ peers) h g = g

  -- The state as long as the server talks to its first peer only.
  abbrev pub IsSingle : Bytes → State T N → Type 0
  IsSingle first s =
      HasFirst first s.peers × IsSilent first s.peers × All (λ d. d.0 ≡ first) s.delivered

  deliver_keeps_first :
      (first key : Bytes) (nets : List N) (o : Option Bytes)
      → key ≡ first
      → All (λ d. d.0 ≡ first) (deliver b key nets o)
  deliver_keeps_first first key nets none h = tt
  deliver_keeps_first first key nets (some pkt) h =
      elim (Bool-cases (allows_any b nets (packet_src_ip pkt))) [
        | inl e ↦ rw e (h, tt)
        | inr e ↦ rw e tt
      ]

  receive_for-IsSingle :
      (first : Bytes) (rounds now : ℕ) (src : Endpoint) (raw : Bytes)
      (o : Option (Bytes × Peer T N)) (s : State T N)
      → IsFirst first o
      → IsSingle first s
      → IsSingle first (receive_for b rounds now src raw o s)
  unfolding receive
  receive_for-IsSingle first rounds now src raw none s f h = h
  receive_for-IsSingle first rounds now src raw (some (key, p)) s f (h, silent, d) = (
    adjust-HasFirst first key _ s.peers h,
    subst
        (λ k. IsSilent first (
          adjust b k
            (λ q. record q {
              tunnel = (drain_timers b rounds (b.decapsulate p.tunnel src.ip raw).0).0;
              endpoint = some src;
              last_seen = now;
            })
            s.peers))
        (sym f) (adjust-IsSilent first _ s.peers silent),
    All-append (λ x. x.0 ≡ first) s.delivered _ d (deliver_keeps_first first key p.allowed_ips _ f),
  )

  encrypt_to-IsSingle :
      (first key pkt : Bytes) (p : Peer T N) (ep : Option Endpoint) (s : State T N)
      → IsSingle first s
      → IsSingle first (encrypt_to b key pkt p ep s)
  unfolding encrypt_to
  encrypt_to-IsSingle first key pkt p none s h = h
  encrypt_to-IsSingle first key pkt p (some ep) s (h, silent, d) = (
    adjust-HasFirst first key _ s.peers h,
    adjust-keeps first key _ s.peers (λ q. refl) silent,
    d,
  )

  encrypt_for-IsSingle :
      (first key pkt : Bytes) (o : Option (Peer T N)) (s : State T N)
      → IsSingle first s
      → IsSingle first (encrypt_for b key pkt o s)
  encrypt_for-IsSingle first key pkt none s h = h
  encrypt_for-IsSingle first key pkt (some p) s h =
      encrypt_to-IsSingle first key pkt p p.endpoint s h

  tick_peer-endpoint :
      (rounds : ℕ) (p : Peer T N) (ep : Option Endpoint)
      → (tick_peer b rounds p ep).0.endpoint ≡ p.endpoint
  unfolding tick_peer
  tick_peer-endpoint rounds p none = refl
  tick_peer-endpoint rounds p (some ep) = refl

  tick_peer-IsSilent :
      (first : Bytes) (rounds : ℕ) (k : Bytes) (p : Peer T N)
      → (k ≡ first) ⊎ (p.endpoint ≡ none)
      → (k ≡ first) ⊎ ((tick_peer b rounds p p.endpoint).0.endpoint ≡ none)
  tick_peer-IsSilent first rounds k p (inl same) = inl same
  tick_peer-IsSilent first rounds k p (inr silent) =
      inr (tick_peer-endpoint rounds p p.endpoint ∙ silent)

  tick_all-IsSilent :
      (first : Bytes) (rounds : ℕ) (peers : List (Bytes × Peer T N))
      → IsSilent first peers
      → IsSilent first (tick_all b rounds peers).0
  unfolding tick_all
  tick_all-IsSilent first rounds [] h = tt
  tick_all-IsSilent first rounds ((k, p) ∷ peers) h =
      (tick_peer-IsSilent first rounds k p h.0, tick_all-IsSilent first rounds peers h.1)

  tick_all-HasFirst :
      (first : Bytes) (rounds : ℕ) (peers : List (Bytes × Peer T N))
      → HasFirst first peers
      → HasFirst first (tick_all b rounds peers).0
  unfolding tick_all
  tick_all-HasFirst first rounds [] h = tt
  tick_all-HasFirst first rounds ((k, p) ∷ peers) h = h

  on_event-IsSingle :
      (first : Bytes) (e : Event) (s : State T N)
      → IsSingle first s
      → IsSingle first (on_event b e s)
  unfolding on_event on_datagram on_actor_packet on_tick find_peer
  on_event-IsSingle first (datagram rounds now src raw) s h =
      receive_for-IsSingle first rounds now src raw _ s
        (or_else-IsFirst first (find_at b s.peers src) s.peers
          (find_at-IsFirst first s.peers src h.1) h.0)
        h
  on_event-IsSingle first (actor_packet key pkt) s h =
      encrypt_for-IsSingle first key pkt (peer_of b s.peers key) s h
  on_event-IsSingle first (tick rounds) s (h, silent, d) =
      (tick_all-HasFirst first rounds s.peers h, tick_all-IsSilent first rounds s.peers silent, d)

  -- As long as no peer but the first was heard of, which is so at the start, no event makes the
  -- server hear of any other: after any events in any order, every other peer still has no
  -- endpoint, and nothing was delivered to its actor.
  pub run-IsSingle :
      (es : List Event) (first : Bytes) (s : State T N)
      → IsSingle first s
      → IsSingle first (run b es s)
  unfolding run
  run-IsSingle [] first s h = h
  run-IsSingle (e ∷ es) first s h =
      run-IsSingle es first (on_event b e s) (on_event-IsSingle first e s h)
