-- ===== src/Vmess/Header/Looks.antt =====
-- What `parse_plain_header` of src/vmess/mod.rs reads of a header, part by part.
use ruproxy.Text.Laws.{from_utf8_ok}
use ruproxy.Prelude.{get_or-append, lt→ltb, drop-length_append}
use ruproxy.Vmess.Crypto.{fnv1a32, Crates, sha256_16}
use ruproxy.Prelude.{le→leb, take-length_append, le→ltb, ==_refl}
use ruproxy.Target.{
  Host, IsHost, host_body, target_text, host_text, ip4, name, ip6, octets6, ipv6_of-octets6,
}
use ruproxy.Io.{ok}
use ruproxy.Bytes.{Bytes, be32, be16}
use ruproxy.Vmess.Header.{parse_plain_header, parse_header_host, slice, parse_checksum}
use ruproxy.Prelude.{
  ℕ, suc, ◌+◌, ◌-◌, ◌/◌, ◌^◌, ◌≤◌, ◌≡◌, refl, ap, ◌∙◌, subst, [], ◌∷◌, ◌++◌, length, take, drop,
  get_or, arith, bit_and, append_assoc, length-append,
}
use ruproxy.Vless.Protocol.Decode.{host_type}

pub slice-middle :
    (i j : ℕ) (pre mid post : Bytes)
    → length pre ≡ i
    → i + length mid ≡ j
    → slice (pre ++ (mid ++ post)) i j ≡ ok mid
slice-middle i j pre mid post p m =
    let whole = length-append pre (mid ++ post) in
    let part = length-append mid post in
    let size : j - i ≡ length mid = omega arith in
    let start : drop i (pre ++ (mid ++ post)) ≡ mid ++ post =
      subst (λ n. drop n (pre ++ (mid ++ post)) ≡ mid ++ post) p
        (drop-length_append pre (mid ++ post)) in
    rw
      (
        le→leb i j (omega arith),
        le→leb j (length (pre ++ (mid ++ post))) (omega (arith, whole, part)),
        start,
        size,
        take-length_append mid post,
      )
      refl

pub parse_header_host-host_body :
    (host : Host) (pre rest : Bytes)
    → length pre ≡ 41
    → IsHost host
    → parse_header_host (pre ++ (host_body host ++ rest)) (host_type host)
      ≡ ok (host_text host, 41 + length (host_body host))
unfolding parse_header_host
parse_header_host-host_body (ip4 ip) pre rest p h =
    rw (slice-middle 41 45 pre (host_body (ip4 ip)) rest p refl) refl
parse_header_host-host_body (name d) pre rest p h =
    let whole = length-append pre (length d ∷ (d ++ rest)) in
    let at : get_or (pre ++ (length d ∷ (d ++ rest))) 41 0 ≡ length d =
      get_or-append 41 0 pre (length d ∷ (d ++ rest)) 0 p in
    let longer : length (pre ++ (length d ∷ [])) ≡ 42 =
      length-append pre (length d ∷ []) ∙ omega arith in
    let same : 42 + length d ≡ 41 + suc (length d) = omega arith in
    let body : slice (pre ++ (length d ∷ (d ++ rest))) 42 (42 + length d) ≡ ok d =
      subst (λ x. slice x 42 (42 + length d) ≡ ok d) (append_assoc pre (length d ∷ []) (d ++ rest))
        (slice-middle 42 (42 + length d) (pre ++ (length d ∷ [])) d rest longer refl) in
    rw (lt→ltb 41 (length (pre ++ (length d ∷ (d ++ rest)))) (omega arith), at)
      (rw body (rw (from_utf8_ok d h.0) (ap (λ n. ok (d, n)) same)))
parse_header_host-host_body (ip6 ip) pre rest p h =
    rw (slice-middle 41 57 pre (octets6 ip) rest p refl, ipv6_of-octets6 ip h) refl

-- What `parse_plain_header` looks at, in a header whose host was found.
pub record Looks (h host : Bytes) (end idx : ℕ) : Type 0 where
  pub long : 41 ≤ length h
  pub is_version : get_or h 0 0 ≡ 1
  pub command : get_or h 37 0 ≡ 1
  pub found : parse_header_host h (get_or h 40 0) ≡ ok (host, end)
  pub padded : end + get_or h 35 0 / 2 ^ 4 ≡ idx
  pub room : idx + 4 ≤ length h
  pub checksum :
      fnv1a32 (take idx h)
      ≡ be32 (get_or h idx 0) (get_or h (idx + 1) 0) (get_or h (idx + 2) 0) (get_or h (idx + 3) 0)

pub parse_plain_header-Looks :
    (c : Crates) (h host : Bytes) (end idx : ℕ)
    → Looks h host end idx
    → parse_plain_header c h
      ≡ ok (record {
        target = target_text host (be16 (get_or h 38 0) (get_or h 39 0));
        request_body_key = take 16 (drop 17 h);
        request_body_iv = take 16 (drop 1 h);
        response_body_key = sha256_16 c (take 16 (drop 17 h));
        response_body_iv = sha256_16 c (take 16 (drop 1 h));
        response_token = get_or h 33 0;
        option = get_or h 34 0;
        security = bit_and (get_or h 35 0) 0x0f;
      })
unfolding parse_plain_header parse_checksum
parse_plain_header-Looks c h host end idx l =
    rw (le→ltb (length h) 41 l.long, l.is_version, l.command)
      (rw (l.found) (
        rw (l.padded, le→ltb (length h) (idx + 4) l.room, l.checksum)
          (rw
            (==_refl (
              be32 (get_or h idx 0) (get_or h (idx + 1) 0) (get_or h (idx + 2) 0)
                (get_or h (idx + 3) 0)))
            refl)))
