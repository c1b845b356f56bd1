-- ===== src/Tuic/Proto/AddressCodec.antt =====
-- The address codec: `read_from` against `to_bytes`.
use native.Mathlib.Numerals.{add-one}
use ruproxy.Prelude.{
  ℕ, ◌+◌, ◌<◌, ◌≡◌, refl, ◌∙◌, true, [], ◌∷◌, ◌++◌, length, arith, take-length_append,
  length-append, get_or, suc, ◌%◌, ◌/◌,
}
use ruproxy.Bytes.{Bytes, IsU16, u16_bytes, be16-u16_bytes}
use ruproxy.Io.{ok, read_exact-append, read_u8, read_exact}
use ruproxy.Text.{is_utf8, from_utf8, v4, v6}
use ruproxy.Tuic.Proto.{
  Address, domain_address, socket_address, read_domain, read_v4, read_v6, read_body, read_from,
  to_bytes,
}

-- The addresses that the encoder can express: a domain name has at most 255 bytes.
abbrev pub IsAddress : Address → Type 0
IsAddress Address.none = Unit
IsAddress (domain_address d port) = (is_utf8 d ≡ true) × (length d < 256) × IsU16 port
IsAddress (socket_address (v4 ip port)) = IsU16 port
IsAddress (socket_address (v6 ip port)) =
    IsU16 ip.s0
    × IsU16 ip.s1
    × IsU16 ip.s2
    × IsU16 ip.s3
    × IsU16 ip.s4
    × IsU16 ip.s5
    × IsU16 ip.s6
    × IsU16 ip.s7
    × IsU16 port

get_or-tail :
    (d : Bytes) (x y : ℕ)
    → (get_or (d ++ (x ∷ y ∷ [])) (length d) 0 ≡ x)
      × (get_or (d ++ (x ∷ y ∷ [])) (suc (length d)) 0 ≡ y)
get_or-tail [] x y = (refl, refl)
get_or-tail (z ∷ d) x y = get_or-tail d x y

read_domain-bytes :
    (d rest : Bytes) (port : ℕ)
    → is_utf8 d ≡ true
    → length d < 256
    → IsU16 port
    → read_domain ((length d % 256) ∷ ((d ++ u16_bytes port) ++ rest))
      ≡ ok (domain_address d port, rest)
unfolding read_domain read_u8 from_utf8
read_domain-bytes d rest port u l p =
    let whole =
      read_exact-append (length d + 2) (d ++ u16_bytes port) rest
        (length-append d (u16_bytes port) ∙ omega arith) in
    let (hi, lo) = get_or-tail d (port / 256 % 256) (port % 256) in
    let len : length d % 256 ≡ length d = omega arith in
    rw (len, whole) (rw (take-length_append, u, add-one, hi, lo, be16-u16_bytes port p))

-- An address that can be encoded is read back from what `to_bytes` writes, and the bytes behind it
-- are left: its port and segments fit 16 bits, and a domain name is UTF-8 of at most 255 bytes.
pub read_from-to_bytes :
    (a : Address) (rest : Bytes) → IsAddress a → read_from (to_bytes a ++ rest) ≡ ok (a, rest)
unfolding read_from read_body to_bytes read_u8 read_v4 read_v6 read_exact
read_from-to_bytes Address.none rest h = refl
read_from-to_bytes (domain_address d port) rest h = read_domain-bytes d rest port h.0 h.1 h.2
read_from-to_bytes (socket_address (v4 ip port)) rest h = ground arith
read_from-to_bytes (socket_address (v6 ip port)) rest h = ground arith
