-- ===== src/Shadowsocks/Header/Parsed.antt =====
-- `parse_request_header` and `parse_response_header` of src/shadowsocks/protocol.rs against the
-- headers on the wire.
use ruproxy.Bytes.{Bytes, IsU16, u64_bytes, u16_bytes, be16, IsU64, be_onto, be_onto-u64_bytes}
use ruproxy.Prelude.{
  ℕ, ◌+◌, ◌/◌, ◌%◌, ◌≤◌, ◌≡◌, refl, sym, subst, [], ◌∷◌, ◌++◌, ltb, length, take, drop, get_or,
  if◌then◌else◌, arith, append_assoc, append-nil, length-append, le→ltb, take-length_append,
  drop-length_append, ==_refl, ==_iff, take_all,
}
use ruproxy.Shadowsocks.Header.{
  check_timestamp, copy, parse_host, parse_address, parse_padded, parse_request_header,
  parse_response_header, build_response_header, abs_diff, max_timestamp_diff,
}
use ruproxy.Target.{
  Host, ip4, name, ip6, host_text, host_body, IsHost, target_text, octets4, octets6,
  ipv6_of-octets6,
}
use ruproxy.Text.Laws.{from_utf8_ok}
use ruproxy.Io.{
  Fault, ok, truncated, missing_padding_length, truncated_padding, err, header_too_short,
}

abbrev pub host_type : Host → ℕ
host_type (ip4 ip) = 0x01
host_type (name d) = 0x03
host_type (ip6 ip) = 0x04

copy-append :
    (n : ℕ) (e : Fault) (xs rest : Bytes) → length xs ≡ n → copy n e (xs ++ rest) ≡ ok (xs, rest)
unfolding copy
copy-append n e xs rest h =
    rw (le→ltb (length (xs ++ rest)) n (omega (arith, length-append xs rest)), sym h)
      (rw (take-length_append, drop-length_append) refl)

copy-all : (e : Fault) (xs : Bytes) → copy (length xs) e xs ≡ ok (xs, [])
copy-all e xs =
    subst (λ t. copy (length xs) e t ≡ ok (xs, [])) (append-nil xs)
      (copy-append (length xs) e xs [] refl)

parse_host-host_body :
    (host : Host) (rest : Bytes)
    → IsHost host
    → parse_host (host_type host) (host_body host ++ rest) ≡ ok (host_text host, rest)
unfolding parse_host
parse_host-host_body (ip4 ip) rest h = rw (copy-append 4 truncated (octets4 ip) rest refl) refl
parse_host-host_body (name d) rest h =
    rw (copy-append 1 truncated (length d ∷ []) (d ++ rest) refl)
      (rw (copy-append (length d) truncated d rest refl) (rw (from_utf8_ok d h.0) refl))
parse_host-host_body (ip6 ip) rest h =
    rw (copy-append 16 truncated (octets6 ip) rest refl) (rw (ipv6_of-octets6 ip h) refl)

abbrev pub address_bytes : Host → ℕ → Bytes
address_bytes host port = host_type host ∷ (host_body host ++ u16_bytes port)

pub parse_address-address_bytes :
    (host : Host) (port : ℕ) (rest : Bytes)
    → IsHost host
    → IsU16 port
    → parse_address (address_bytes host port ++ rest) ≡ ok (target_text (host_text host) port, rest)
unfolding parse_address
parse_address-address_bytes host port rest h p =
    let same : be16 (port / 256 % 256) (port % 256) ≡ port = omega arith in
    let split = append_assoc (host_body host) (u16_bytes port) rest in
    rw
      (
        copy-append 1 truncated (host_type host ∷ []) ((host_body host ++ u16_bytes port) ++ rest)
            refl,
        split,
      )
      (rw (parse_host-host_body host (u16_bytes port ++ rest) h)
        (rw (copy-append 2 truncated (u16_bytes port) rest refl) (rw same refl)))

-- A request header: type, time, address and padding.
abbrev pub request_header : ℕ → ℕ → Host → ℕ → Bytes → Bytes
request_header type ts host port padding =
    type ∷ (u64_bytes ts ++ (address_bytes host port ++ (u16_bytes (length padding) ++ padding)))

parse_padded-bytes :
    (host : Host) (port : ℕ) (padding : Bytes)
    → IsHost host
    → IsU16 port
    → IsU16 (length padding)
    → parse_padded (address_bytes host port ++ (u16_bytes (length padding) ++ padding))
      ≡ ok (target_text (host_text host) port, [])
unfolding parse_padded
parse_padded-bytes host port padding h p l =
    let same : be16 (length padding / 256 % 256) (length padding % 256) ≡ length padding =
      omega arith in
    rw (parse_address-address_bytes host port (u16_bytes (length padding) ++ padding) h p) (
      rw (copy-append 2 missing_padding_length (u16_bytes (length padding)) padding refl)
        (rw same (rw (copy-all truncated_padding padding) refl)))

-- Let a request header be of the expected type, with a time at most 30 seconds from now; if it has
-- 18 bytes at least, it is parsed to the text of its target, whatever its padding; if it is
-- shorter, as with a name of one or two bytes and no padding, it is refused as too short. Its
-- time, its port and the length of its padding fit their fields, and the host is an address, or a
-- name of 1 to 255 bytes of UTF-8.
pub parse_request_header-request_header :
    (now type ts : ℕ) (host : Host) (port : ℕ) (padding : Bytes)
    → abs_diff ts now ≤ max_timestamp_diff
    → IsU64 ts
    → IsHost host
    → IsU16 port
    → IsU16 (length padding)
    → parse_request_header now (request_header type ts host port padding) type ≡ (
        if ltb (length (request_header type ts host port padding)) 18
        then err header_too_short
        else ok (target_text (host_text host) port))
unfolding parse_request_header check_timestamp
parse_request_header-request_header now type ts host port padding fresh t h p l =
    let time : be_onto 0 (u64_bytes ts) ≡ ts = be_onto-u64_bytes ts t in
    rw (==_refl type, time, le→ltb max_timestamp_diff (abs_diff ts now) fresh)
      (rw (parse_padded-bytes host port padding h p l) refl)

-- No header is accepted whose type is not the expected one, or whose time is more than 30 seconds
-- from now.
pub parse_request_header-fresh :
    (now type : ℕ) (header : Bytes) {target : Bytes}
    → parse_request_header now header type ≡ ok target
    → (get_or header 0 0 ≡ type)
      × (abs_diff (be_onto 0 (take 8 (drop 1 header))) now ≤ max_timestamp_diff)
unfolding parse_request_header check_timestamp
parse_request_header-fresh now type header h = ground (arith, ==_iff (get_or header 0 0) type)

-- A response header gives back the salt of the request, within 30 seconds of its time, which fits
-- 64 bits.
pub parse_response_header-build_response_header :
    (now later : ℕ) (salt : Bytes)
    → IsU64 now
    → abs_diff now later ≤ max_timestamp_diff
    → parse_response_header later (build_response_header now salt) (length salt) ≡ ok salt
unfolding parse_response_header build_response_header check_timestamp
parse_response_header-build_response_header now later salt t fresh =
    let time : be_onto 0 (u64_bytes now) ≡ now = be_onto-u64_bytes now t in
    let all : length (build_response_header now salt) ≡ 1 + 8 + length salt =
      unfold build_response_header in omega arith in
    rw
      (
        le→ltb (length (build_response_header now salt)) (1 + 8 + length salt) (omega arith),
        time,
        le→ltb max_timestamp_diff (abs_diff now later) fresh,
        take_all (length salt) salt (omega arith),
      )
      refl
