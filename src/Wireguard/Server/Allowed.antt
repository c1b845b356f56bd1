-- ===== src/Wireguard/Server/Allowed.antt =====
-- What reaches the actors of the peers.
use ruproxy.Prelude.{
  ℕ, ◌≡◌, refl, sym, ap, ◌∙◌, subst, true, Option, none, some, List, [], ◌∷◌, All, ◌⊎◌, inl, inr,
  Bool-cases, Option-cases, All-append,
}
use ruproxy.Bytes.{Bytes}
use ruproxy.Wireguard.Packet.{
  Endpoint, FlowKey, packet_src_ip, parse_flow_key, parse_flow_key-packet_src_ip,
}
use ruproxy.Wireguard.Server.{
  Boringtun, Peer, State, find_at, first_peer, find_peer, receive, receive_for, on_datagram,
  on_tick, is_at, deliver, allows_any,
}
use ruproxy.Wireguard.Server.Events.{
  Event, datagram, actor_packet, tick, on_event, run, networks, networks-adjust, networks-tick_all,
  on_actor_packet-keeps,
}

module _ {T : Type 0} {N : Type 0} (b : Boringtun T N) where
  -- A peer with this key is configured with these networks.
  abbrev pub IsConfigured : List (Bytes × List N) → Bytes → List N → Type 0
  IsConfigured [] key nets = ⊥
  IsConfigured ((k, ns) ∷ table) key nets = ((k ≡ key) × (ns ≡ nets)) ⊎ IsConfigured table key nets

  -- The source of a packet, and of the flow that it belongs to, lies in a network of the peer.
  abbrev pub IsAllowed : List (Bytes × List N) → Bytes × Bytes → Type 0
  IsAllowed table (key, pkt) =
      (nets : List N) × IsConfigured table key nets
      × (allows_any b nets (packet_src_ip pkt) ≡ true)
      × ((flow : FlowKey) → parse_flow_key pkt ≡ some flow → allows_any b nets flow.src.ip ≡ true)

  same_entry :
      (k key : Bytes) (q p : Peer T N)
      → ◌≡◌ {A = Option (Bytes × Peer T N)} (some (k, q)) (some (key, p))
      → (k ≡ key) × (q.allowed_ips ≡ p.allowed_ips)
  same_entry k key q p h = (cc, cc)

  find_at-IsConfigured :
      (peers : List (Bytes × Peer T N)) (src : Endpoint) (key : Bytes) (p : Peer T N)
      → find_at b peers src ≡ some (key, p)
      → IsConfigured (networks b peers) key p.allowed_ips
  find_at-IsConfigured [] src key p h = cc
  find_at-IsConfigured ((k, q) ∷ peers) src key p h = elim (Bool-cases (is_at q.endpoint src)) [
    | inl e ↦ inl (same_entry k key q p (rw e at h))
    | inr e ↦ inr (find_at-IsConfigured peers src key p (rw e at h))
  ]

  first-IsConfigured :
      (peers : List (Bytes × Peer T N)) (key : Bytes) (p : Peer T N)
      → first_peer b peers ≡ some (key, p)
      → IsConfigured (networks b peers) key p.allowed_ips
  first-IsConfigured [] key p h = cc
  first-IsConfigured ((k, q) ∷ peers) key p h = inl (same_entry k key q p h)

  find_peer-IsConfigured :
      (peers : List (Bytes × Peer T N)) (src : Endpoint) (key : Bytes) (p : Peer T N)
      → find_peer b peers src ≡ some (key, p)
      → IsConfigured (networks b peers) key p.allowed_ips
  unfolding find_peer
  find_peer-IsConfigured peers src key p h = elim (Option-cases (find_at b peers src)) [
    | inl e ↦ first-IsConfigured peers key p (rw e at h)
    | inr ((k, q), e) ↦ find_at-IsConfigured peers src key p (e ∙ rw e at h)
  ]

  deliver-IsAllowed :
      (table : List (Bytes × List N)) (key : Bytes) (nets : List N) (o : Option Bytes)
      → IsConfigured table key nets
      → All (IsAllowed table) (deliver b key nets o)
  deliver-IsAllowed table key nets none c = tt
  deliver-IsAllowed table key nets (some pkt) c =
      elim (Bool-cases (allows_any b nets (packet_src_ip pkt))) [
        | inl e ↦ rw e (
          (
            nets,
            c,
            e,
            λ flow h. ap (allows_any b nets) (sym (parse_flow_key-packet_src_ip pkt flow h)) ∙ e,
          ),
          tt,
        )
        | inr e ↦ rw e tt
      ]

  -- The networks stay as they were configured, and what was delivered was allowed.
  abbrev pub IsFiltered : List (Bytes × List N) → State T N → Type 0
  IsFiltered table s = (networks b s.peers ≡ table) × All (IsAllowed table) s.delivered

  receive_for-IsFiltered :
      (table : List (Bytes × List N)) (rounds now : ℕ) (src : Endpoint) (raw : Bytes)
      (o : Option (Bytes × Peer T N)) (s : State T N)
      → find_peer b s.peers src ≡ o
      → IsFiltered table s
      → IsFiltered table (receive_for b rounds now src raw o s)
  unfolding receive
  receive_for-IsFiltered table rounds now src raw none s found h = h
  receive_for-IsFiltered table rounds now src raw (some (key, p)) s found (same, h) =
      let c =
        subst (λ t. IsConfigured t key p.allowed_ips) same
          (find_peer-IsConfigured s.peers src key p found) in
      (
        networks-adjust b key _ s.peers (λ q. refl) ∙ same,
        All-append (IsAllowed table) s.delivered _ h
            (deliver-IsAllowed table key p.allowed_ips _ c),
      )

  on_event-IsFiltered :
      (table : List (Bytes × List N)) (e : Event) (s : State T N)
      → IsFiltered table s
      → IsFiltered table (on_event b e s)
  unfolding on_event on_datagram on_tick
  on_event-IsFiltered table (datagram rounds now src raw) s h =
      receive_for-IsFiltered table rounds now src raw (find_peer b s.peers src) s refl h
  on_event-IsFiltered table (actor_packet key pkt) s (same, h) =
      let (nets, kept) = on_actor_packet-keeps b key pkt s in
      (nets ∙ same, subst (All (IsAllowed table)) (sym kept) h)
  on_event-IsFiltered table (tick rounds) s (same, h) =
      (networks-tick_all b rounds s.peers ∙ same, h)

  run-keeps :
      (es : List Event) (table : List (Bytes × List N)) (s : State T N)
      → IsFiltered table s
      → IsFiltered table (run b es s)
  unfolding run
  run-keeps [] table s h = h
  run-keeps (e ∷ es) table s h =
      run-keeps es table (on_event b e s) (on_event-IsFiltered table e s h)

  -- From a start at which nothing was delivered, after any events of the tasks in any order, the
  -- peers have the networks that they were configured with, and every packet delivered to the
  -- actor of a peer has its source in one of that peer's networks, as has the source of the flow
  -- that the actor takes it for.
  pub run-IsFiltered :
      (es : List Event) (table : List (Bytes × List N)) (s : State T N)
      → networks b s.peers ≡ table
      → s.delivered ≡ []
      → IsFiltered table (run b es s)
  run-IsFiltered es table s same none' =
      run-keeps es table s (same, subst (All (IsAllowed table)) (sym none') tt)
