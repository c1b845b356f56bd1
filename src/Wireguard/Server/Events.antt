-- ===== src/Wireguard/Server/Events.antt =====
-- What the tasks of the WireGuard server do, in any order: each event is one round of one of them, under
-- the locks of the peer.
use ruproxy.Prelude.{ℕ, ◌≡◌, refl, ap, ap₂, Option, none, some, List, [], ◌∷◌, inl, inr, Bool-cases}
use ruproxy.Wireguard.Packet.{Endpoint}
use ruproxy.Wireguard.Server.{
  Boringtun, Peer, State, adjust, on_datagram, encrypt_to, encrypt_for, on_actor_packet, tick_peer,
  tick_all, on_tick, peer_of,
}
use ruproxy.Bytes.{Bytes, bytes_eq}

pub data Event : Type 0 where
  datagram : ℕ → ℕ → Endpoint → Bytes → Event
  actor_packet : Bytes → Bytes → Event
  tick : ℕ → Event

module _ {T : Type 0} {N : Type 0} (b : Boringtun T N) where
  unfoldable pub on_event : Event → State T N → State T N
  on_event (datagram rounds now src raw) s = on_datagram b rounds now src raw s
  on_event (actor_packet key pkt) s = on_actor_packet b key pkt s
  on_event (tick rounds) s = on_tick b rounds s

  unfoldable pub run : List Event → State T N → State T N
  run [] s = s
  run (e ∷ es) s = run es (on_event e s)

  -- What no task changes.
  abbrev pub networks : List (Bytes × Peer T N) → List (Bytes × List N)
  networks [] = []
  networks ((k, p) ∷ peers) = (k, p.allowed_ips) ∷ networks peers

  pub networks-adjust :
      (key : Bytes) (f : Peer T N → Peer T N) (peers : List (Bytes × Peer T N))
      → ((p : Peer T N) → (f p).allowed_ips ≡ p.allowed_ips)
      → networks (adjust b key f peers) ≡ networks peers
  unfolding adjust
  networks-adjust key f [] h = refl
  networks-adjust key f ((k, p) ∷ peers) h = elim (Bool-cases (bytes_eq k key)) [
    | inl e ↦ rw e (ap₂ (λ x y. (k, x) ∷ y) (h p) (networks-adjust key f peers h))
    | inr e ↦ rw e (ap (λ y. (k, p.allowed_ips) ∷ y) (networks-adjust key f peers h))
  ]

  tick_peer-allowed_ips :
      (rounds : ℕ) (p : Peer T N) (ep : Option Endpoint)
      → (tick_peer b rounds p ep).0.allowed_ips ≡ p.allowed_ips
  unfolding tick_peer
  tick_peer-allowed_ips rounds p none = refl
  tick_peer-allowed_ips rounds p (some ep) = refl

  pub networks-tick_all :
      (rounds : ℕ) (peers : List (Bytes × Peer T N))
      → networks (tick_all b rounds peers).0 ≡ networks peers
  unfolding tick_all
  networks-tick_all rounds [] = refl
  networks-tick_all rounds ((k, p) ∷ peers) =
      ap₂ (λ x y. (k, x) ∷ y) (tick_peer-allowed_ips rounds p p.endpoint)
        (networks-tick_all rounds peers)

  -- The packets of the actors change neither the networks nor what was delivered.
  encrypt_to-keeps :
      (key pkt : Bytes) (p : Peer T N) (ep : Option Endpoint) (s : State T N)
      → (networks (encrypt_to b key pkt p ep s).peers ≡ networks s.peers)
        × ((encrypt_to b key pkt p ep s).delivered ≡ s.delivered)
  unfolding encrypt_to
  encrypt_to-keeps key pkt p none s = (refl, refl)
  encrypt_to-keeps key pkt p (some ep) s = (networks-adjust key _ s.peers (λ q. refl), refl)

  encrypt_for-keeps :
      (key pkt : Bytes) (o : Option (Peer T N)) (s : State T N)
      → (networks (encrypt_for b key pkt o s).peers ≡ networks s.peers)
        × ((encrypt_for b key pkt o s).delivered ≡ s.delivered)
  encrypt_for-keeps key pkt none s = (refl, refl)
  encrypt_for-keeps key pkt (some p) s = encrypt_to-keeps key pkt p p.endpoint s

  pub on_actor_packet-keeps :
      (key pkt : Bytes) (s : State T N)
      → (networks (on_actor_packet b key pkt s).peers ≡ networks s.peers)
        × ((on_actor_packet b key pkt s).delivered ≡ s.delivered)
  unfolding on_actor_packet
  on_actor_packet-keeps key pkt s = encrypt_for-keeps key pkt (peer_of b s.peers key) s
