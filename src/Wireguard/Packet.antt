-- ===== src/Wireguard/Packet.antt =====
-- The addresses in an IP packet: packet_src_ip of src/wireguard/server.rs, parse_flow_key of
-- src/wireguard/stack.rs.
use ruproxy.Bytes.{Bytes, be16}
use ruproxy.Prelude.{
  ℕ, ◌+◌, ◌*◌, ◌/◌, ◌≡◌, Bool, true, not, ◌&&◌, ◌||◌, Option, none, some, [], ◌∷◌, ◌==◌, ltb, leb,
  length, take, drop, get_or, if◌then◌else◌, arith, bit_and, Bool-cases, inl, inr, sym, le→leb,
  ltb_false→le,
}
use ruproxy.Target.{ipv4_of, ipv6_of}
use ruproxy.Text.{Ipv4, Ipv6}

pub data IpAddr : Type 0 where
  v4 : Ipv4 → IpAddr
  v6 : Ipv6 → IpAddr

pub record Endpoint : Type 0 where
  pub ip : IpAddr
  pub port : ℕ

pub record FlowKey : Type 0 where
  pub proto : ℕ
  pub src : Endpoint
  pub dst : Endpoint

-- `&pkt[i..i + n]`
abbrev pub part : Bytes → ℕ → ℕ → Bytes
part pkt i n = take n (drop i pkt)

-- `Ipv4Addr::UNSPECIFIED`
abbrev pub unspecified : IpAddr
unspecified = v4 (record { a = 0; b = 0; c = 0; d = 0 })

unfoldable pub packet_src_ip : Bytes → IpAddr
packet_src_ip [] = unspecified
packet_src_ip (b ∷ r) =
    let pkt : Bytes = b ∷ r in
    if b / 16 == 4 && leb 20 (length pkt)
    then v4 (ipv4_of (part pkt 12 4))
    else if b / 16 == 6 && leb 40 (length pkt)
    then v6 (ipv6_of (part pkt 8 16))
    else unspecified

abbrev pub is_flow_proto : ℕ → Bool
is_flow_proto proto = proto == 6 || proto == 17

-- The ports at `at`, with the addresses; `pkt.get(at..at + 4)?`.
abbrev pub flow_at : Bytes → ℕ → ℕ → IpAddr → IpAddr → Option FlowKey
flow_at pkt at proto src_ip dst_ip =
    if ltb (length pkt) (at + 4)
    then none
    else some (record {
      proto = proto;
      src = record { ip = src_ip; port = be16 (get_or pkt at 0) (get_or pkt (at + 1) 0) };
      dst = record { ip = dst_ip; port = be16 (get_or pkt (at + 2) 0) (get_or pkt (at + 3) 0) };
    })

unfoldable pub parse_ipv4_flow : Bytes → Option FlowKey
parse_ipv4_flow pkt =
    let ihl : ℕ = bit_and (get_or pkt 0 0) 0x0f * 4 in
    let proto : ℕ = get_or pkt 9 0 in
    if ltb (length pkt) 20
    then none
    else if not (is_flow_proto proto)
    then none
    else flow_at pkt ihl proto (v4 (ipv4_of (part pkt 12 4))) (v4 (ipv4_of (part pkt 16 4)))

unfoldable pub parse_ipv6_flow : Bytes → Option FlowKey
parse_ipv6_flow pkt =
    let proto : ℕ = get_or pkt 6 0 in
    if ltb (length pkt) 44
    then none
    else if not (is_flow_proto proto)
    then none
    else flow_at pkt 40 proto (v6 (ipv6_of (part pkt 8 16))) (v6 (ipv6_of (part pkt 24 16)))

unfoldable pub parse_flow_key : Bytes → Option FlowKey
parse_flow_key [] = none
parse_flow_key (b ∷ r) =
    if b / 16 == 4
    then parse_ipv4_flow (b ∷ r)
    else if b / 16 == 6
    then parse_ipv6_flow (b ∷ r)
    else none

flow-src : {a key : FlowKey} → some a ≡ some key → key.src.ip ≡ a.src.ip
flow-src h = cc

flow_at-src :
    (pkt : Bytes) (at proto : ℕ) (src_ip dst_ip : IpAddr) {key : FlowKey}
    → flow_at pkt at proto src_ip dst_ip ≡ some key
    → key.src.ip ≡ src_ip
flow_at-src pkt at proto src_ip dst_ip h = ground arith

ipv4_src :
    (pkt : Bytes) (key : FlowKey)
    → parse_ipv4_flow pkt ≡ some key
    → (leb 20 (length pkt) ≡ true) × (key.src.ip ≡ v4 (ipv4_of (part pkt 12 4)))
unfolding parse_ipv4_flow
ipv4_src pkt key h = elim (Bool-cases (ltb (length pkt) 20)) [
  | inl short ↦ cc (rw short at h)
  | inr fits ↦ elim (Bool-cases (is_flow_proto (get_or pkt 9 0))) [
    | inl known ↦ (
      le→leb 20 (length pkt) (ltb_false→le (length pkt) 20 fits),
      flow_at-src pkt (bit_and (get_or pkt 0 0) 0x0f * 4) (get_or pkt 9 0) _ _
          (rw (known) at (rw fits at h)),
    )
    | inr other ↦ cc (rw (other) at (rw fits at h))
  ]
]

ipv6_src :
    (pkt : Bytes) (key : FlowKey)
    → parse_ipv6_flow pkt ≡ some key
    → (leb 40 (length pkt) ≡ true) × (key.src.ip ≡ v6 (ipv6_of (part pkt 8 16)))
unfolding parse_ipv6_flow
ipv6_src pkt key h = elim (Bool-cases (ltb (length pkt) 44)) [
  | inl short ↦ cc (rw short at h)
  | inr fits ↦ elim (Bool-cases (is_flow_proto (get_or pkt 6 0))) [
    | inl known ↦ (
      le→leb 40 (length pkt) (omega (arith, ltb_false→le (length pkt) 44 fits)),
      flow-src (rw (known) at (rw fits at h)),
    )
    | inr other ↦ cc (rw (other) at (rw fits at h))
  ]
]

-- The source of a flow is the address that AllowedIPs are checked for.
pub parse_flow_key-packet_src_ip :
    (pkt : Bytes) (key : FlowKey) → parse_flow_key pkt ≡ some key → packet_src_ip pkt ≡ key.src.ip
unfolding parse_flow_key packet_src_ip
parse_flow_key-packet_src_ip [] key h = cc
parse_flow_key-packet_src_ip (b ∷ r) key h = elim (Bool-cases (b / 16 == 4)) [
  | inl four ↦ let (fits, same) = ipv4_src (b ∷ r) key (rw four at h) in rw (four, fits) (sym same)
  | inr n4 ↦ elim (Bool-cases (b / 16 == 6)) [
    | inl six ↦
        let (fits, same) = ipv6_src (b ∷ r) key (rw (six) at (rw n4 at h)) in
        rw (n4, six, fits) (sym same)
    | inr n6 ↦ cc (rw (n6) at (rw n4 at h))
  ]
]
