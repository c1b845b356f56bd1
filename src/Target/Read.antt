-- ===== src/Target/Read.antt =====
-- The hosts that Trojan and SOCKS requests carry, read from the stream by their type.
use ruproxy.Bytes.{Bytes}
use ruproxy.Prelude.{ℕ, ◌≡◌, refl, [], ◌∷◌, ◌++◌, length}
use ruproxy.Io.{Reader, read_u8, read_exact, done, lift, ok, read_exact-append, ◌>>=◌}
use ruproxy.Target.{
  Host, ip4, name, ip6, host_text, host_body, IsHost, ipv4_of, ipv6_of, octets6, ipv6_of-octets6,
}
use ruproxy.Text.{ipv4_text, ipv6_text, from_utf8}
use ruproxy.Text.Laws.{from_utf8_ok}

-- `std::net::Ipv4Addr::from(b).to_string()`
unfoldable pub ip4_host : Reader Bytes
ip4_host = do b ← read_exact 4; done (ipv4_text (ipv4_of b))

-- The length in front of a name, and `String::from_utf8`.
unfoldable pub name_host : Reader Bytes
name_host = do len ← read_u8; b ← read_exact len; lift (from_utf8 b)

-- `format!("[{}]", std::net::Ipv6Addr::from(b))`
unfoldable pub ip6_host : Reader Bytes
ip6_host = do b ← read_exact 16; done (b'[' ∷ (ipv6_text (ipv6_of b) ++ (b']' ∷ [])))

-- The types of SOCKS, which Trojan shares.
abbrev pub atyp_of : Host → ℕ
atyp_of (ip4 ip) = 0x01
atyp_of (name d) = 0x03
atyp_of (ip6 ip) = 0x04

abbrev pub host_reader : Host → Reader Bytes
host_reader (ip4 ip) = ip4_host
host_reader (name d) = name_host
host_reader (ip6 ip) = ip6_host

pub host_reader-host_body :
    (host : Host) (rest : Bytes)
    → IsHost host
    → host_reader host (host_body host ++ rest) ≡ ok (host_text host, rest)
unfolding ip4_host name_host ip6_host read_u8
host_reader-host_body (ip4 ip) rest h = unfold read_exact in refl
host_reader-host_body (name d) rest h =
    rw (read_exact-append (length d) d rest refl) (rw (from_utf8_ok d h.0) refl)
host_reader-host_body (ip6 ip) rest h =
    rw (read_exact-append 16 (octets6 ip) rest refl) (rw (ipv6_of-octets6 ip h) refl)
