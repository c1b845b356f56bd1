-- ===== src/Target.antt =====
-- Hosts and targets as the request parsers of src/ make them: `Ipv4Addr::from`, `Ipv6Addr::from`
-- and the text `host:port`.
pub mod Read
use ruproxy.Bytes.{Bytes, IsU16, be16, u16_bytes}
use ruproxy.Prelude.{ℕ, ◌<◌, ◌≡◌, true, [], ◌∷◌, ◌++◌, length, get_or, arith}
use ruproxy.Text.{Ipv4, Ipv6, ipv4_text, ipv6_text, decimal, is_utf8}

abbrev pub ipv4_of : Bytes → Ipv4
ipv4_of b = record { a = get_or b 0 0; b = get_or b 1 0; c = get_or b 2 0; d = get_or b 3 0 }

abbrev pub ipv6_of : Bytes → Ipv6
ipv6_of b = record {
  s0 = be16 (get_or b 0 0) (get_or b 1 0);
  s1 = be16 (get_or b 2 0) (get_or b 3 0);
  s2 = be16 (get_or b 4 0) (get_or b 5 0);
  s3 = be16 (get_or b 6 0) (get_or b 7 0);
  s4 = be16 (get_or b 8 0) (get_or b 9 0);
  s5 = be16 (get_or b 10 0) (get_or b 11 0);
  s6 = be16 (get_or b 12 0) (get_or b 13 0);
  s7 = be16 (get_or b 14 0) (get_or b 15 0);
}

-- What a client asks for.
pub data Host : Type 0 where
  ip4 : Ipv4 → Host
  name : Bytes → Host
  ip6 : Ipv6 → Host

-- The text that the parsers give: an IPv6 address stands in brackets.
abbrev pub host_text : Host → Bytes
host_text (ip4 ip) = ipv4_text ip
host_text (name d) = d
host_text (ip6 ip) = b'[' ∷ (ipv6_text ip ++ (b']' ∷ []))

-- `format!("{host}:{port}")`
abbrev pub target_text : Bytes → ℕ → Bytes
target_text host port = host ++ (b':' ∷ decimal port)

abbrev pub octets4 : Ipv4 → Bytes
octets4 ip = ip.a ∷ ip.b ∷ ip.c ∷ ip.d ∷ []

abbrev pub octets6 : Ipv6 → Bytes
octets6 ip =
    u16_bytes ip.s0
    ++ (u16_bytes ip.s1
        ++ (u16_bytes ip.s2
            ++ (u16_bytes ip.s3
                ++ (u16_bytes ip.s4 ++ (u16_bytes ip.s5 ++ (u16_bytes ip.s6 ++ u16_bytes ip.s7))))))

-- The host of a request on the wire, behind its type: a name has its length in front.
abbrev pub host_body : Host → Bytes
host_body (ip4 ip) = octets4 ip
host_body (name d) = length d ∷ d
host_body (ip6 ip) = octets6 ip

-- Segments that fit, and names of 1 to 255 bytes of UTF-8.
abbrev pub IsHost : Host → Type 0
IsHost (ip4 ip) = Unit
IsHost (name d) = (is_utf8 d ≡ true) × (0 < length d) × (length d < 256)
IsHost (ip6 ip) =
    IsU16 ip.s0
    × IsU16 ip.s1
    × IsU16 ip.s2
    × IsU16 ip.s3
    × IsU16 ip.s4
    × IsU16 ip.s5
    × IsU16 ip.s6
    × IsU16 ip.s7

pub ipv6_of-octets6 : (ip : Ipv6) → IsHost (ip6 ip) → ipv6_of (octets6 ip) ≡ ip
ipv6_of-octets6 ip h = ground arith
