-- ===== src/Vmess/Header/Parsed.antt =====
-- `parse_plain_header` of src/vmess/mod.rs against the header that a client builds.
use ruproxy.Bits.{bit_and_0x0f}
use ruproxy.Prelude.{get_or-append, get_or-append_left, take-append}
use ruproxy.Vmess.Crypto.{fnv1a32, Crates, sha256_16, fnv1a32_from}
use ruproxy.Prelude.{drop-append, take-length_append}
use ruproxy.Target.{Host, IsHost, host_body, target_text, host_text}
use ruproxy.Io.{ok}
use ruproxy.Bytes.{Bytes, be16, IsU16, u32_bytes, u16_bytes, be32-u32_bytes, IsU32}
use ruproxy.Vmess.Header.{parse_plain_header, VmessRequest}
use ruproxy.Prelude.{
  ℕ, ◌+◌, ◌*◌, ◌/◌, ◌%◌, ◌^◌, ◌<◌, ◌≡◌, refl, sym, ap, ◌∙◌, [], ◌∷◌, ◌++◌, length, take, drop,
  get_or, arith, bit_and, bit_xor, append_assoc, length-append,
}
use ruproxy.Vless.Protocol.Decode.{host_type}
use ruproxy.Vmess.Header.Looks.{Looks, parse_header_host-host_body, parse_plain_header-Looks}

fnv1a32_from-IsU32 : (h : ℕ) (bs : Bytes) → IsU32 h → IsU32 (fnv1a32_from h bs)
unfolding fnv1a32_from
fnv1a32_from-IsU32 h [] small = small
fnv1a32_from-IsU32 h (b ∷ bs) small =
    fnv1a32_from-IsU32 (bit_xor h b * 16777619 % 2 ^ 32) bs (omega arith)

-- What a client puts into its header.
pub record ClientHeader : Type 0 where
  pub iv : Bytes
  pub key : Bytes
  pub token : ℕ
  pub option : ℕ
  pub security : ℕ
  pub reserved : ℕ
  pub port : ℕ
  pub host : Host
  pub padding : Bytes

pub record IsClientHeader (r : ClientHeader) : Type 0 where
  pub iv_size : length r.iv ≡ 16
  pub key_size : length r.key ≡ 16
  pub security_size : r.security < 16
  pub port_size : IsU16 r.port
  pub is_host : IsHost r.host
  pub padding_size : length r.padding < 16

abbrev pub front : ClientHeader → Bytes
front r = 1 ∷ (r.iv ++ r.key)

abbrev pub fixed : ClientHeader → Bytes
fixed r =
    r.token
    ∷ r.option
    ∷ (length r.padding * 16 + r.security)
    ∷ r.reserved
    ∷ 0x01
    ∷ (u16_bytes r.port ++ (host_type r.host ∷ []))

-- A header in plain as a client builds it: the fixed part, the host, the padding and the checksum.
abbrev pub header_prefix : ClientHeader → Bytes
header_prefix r = (front r ++ fixed r) ++ (host_body r.host ++ r.padding)

abbrev pub plain_header : ClientHeader → Bytes
plain_header r = header_prefix r ++ u32_bytes (fnv1a32 (header_prefix r))

abbrev pub request_of : Crates → ClientHeader → VmessRequest
request_of c r = record {
  target = target_text (host_text r.host) r.port;
  request_body_key = r.key;
  request_body_iv = r.iv;
  response_body_key = sha256_16 c r.key;
  response_body_iv = sha256_16 c r.iv;
  response_token = r.token;
  option = r.option;
  security = r.security;
}

module _ (r : ClientHeader) (is : IsClientHeader r) where
  length-front : length (front r) ≡ 33
  length-front = omega (arith, length-append r.iv r.key, is.iv_size, is.key_size)

  pub length-pre : length (front r ++ fixed r) ≡ 41
  length-pre = length-append (front r) (fixed r) ∙ omega (arith, length-front)

  split :
      plain_header r
      ≡ (front r ++ fixed r)
        ++ (host_body r.host ++ (r.padding ++ u32_bytes (fnv1a32 (header_prefix r))))
  split =
      append_assoc (front r ++ fixed r) (host_body r.host ++ r.padding)
        (u32_bytes (fnv1a32 (header_prefix r)))
      ∙ ap (λ x. (front r ++ fixed r) ++ x)
          (append_assoc (host_body r.host) r.padding (u32_bytes (fnv1a32 (header_prefix r))))

  -- The fixed part, byte by byte.
  fixed_at : (k : ℕ) → k < 8 → get_or (plain_header r) (33 + k) 0 ≡ get_or (fixed r) k 0
  fixed_at k small =
      ap (λ x. get_or x (33 + k) 0) split
      ∙ get_or-append_left (33 + k) (front r ++ fixed r)
          (host_body r.host ++ (r.padding ++ u32_bytes (fnv1a32 (header_prefix r)))) 0
          (omega (arith, length-pre))
      ∙ get_or-append 33 k (front r) (fixed r) 0 length-front

  drop-front : (k : ℕ) → (tail : Bytes) × (drop k (plain_header r) ≡ drop k (front r ++ tail))
  drop-front k =
      let rest = host_body r.host ++ (r.padding ++ u32_bytes (fnv1a32 (header_prefix r))) in
      (fixed r ++ rest, ap (drop k) (split ∙ append_assoc (front r) (fixed r) rest))

  iv_at : take 16 (drop 1 (plain_header r)) ≡ r.iv
  iv_at =
      let (tail, e) = drop-front 1 in
      ap (take 16) e
      ∙ ap (take 16) (append_assoc r.iv r.key tail)
      ∙ take-append 16 r.iv (r.key ++ tail) is.iv_size

  key_at : take 16 (drop 17 (plain_header r)) ≡ r.key
  key_at =
      let (tail, e) = drop-front 17 in
      ap (take 16) e
      ∙ ap (λ x. take 16 (drop 16 x)) (append_assoc r.iv r.key tail)
      ∙ ap (take 16) (drop-append 16 0 r.iv (r.key ++ tail) is.iv_size)
      ∙ take-append 16 r.key tail is.key_size

  looks :
      Looks
        (plain_header r)
        (host_text r.host)
        (41 + length (host_body r.host))
        (length (header_prefix r))
  looks =
      let sum = fnv1a32 (header_prefix r) in
      let size = length-append (header_prefix r) (u32_bytes sum) in
      let inner = length-append (front r ++ fixed r) (host_body r.host ++ r.padding) in
      let body = length-append (host_body r.host) r.padding in
      let at : (k : ℕ)
          → get_or (plain_header r) (length (header_prefix r) + k) 0 ≡ get_or (u32_bytes sum) k 0 =
        λ k. get_or-append (length (header_prefix r)) k (header_prefix r) (u32_bytes sum) 0 refl in
      let at0 : get_or (plain_header r) (length (header_prefix r)) 0 ≡ sum / 2 ^ 24 % 256 =
        let e : length (header_prefix r) ≡ length (header_prefix r) + 0 = omega arith in
        ap (λ i. get_or (plain_header r) i 0) e ∙ at 0 in
      record {
        long = omega (arith, size, inner, length-pre);
        is_version = refl;
        command = fixed_at 4 (omega arith);
        found =
            rw (fixed_at 7 (omega arith), split)
              (parse_header_host-host_body r.host (front r ++ fixed r) (r.padding ++ u32_bytes sum)
                length-pre is.is_host);
        padded = omega (arith, fixed_at 2 (omega arith), inner, body, length-pre, is.security_size);
        room = omega (arith, size);
        checksum =
            rw (take-length_append (header_prefix r) (u32_bytes sum), at0, at 1, at 2, at 3)
              (sym (
                be32-u32_bytes sum
                  (fnv1a32_from-IsU32 2166136261 (header_prefix r) (omega arith))));
      }

-- A plain header that a client builds, for an address or a name of 1 to 255 bytes of UTF-8 and
-- with padding of at most 15 bytes, is parsed to its target, keys, token, options and security;
-- the key and the initial vector have 16 bytes, and the port and the security fit their fields.
pub parse_plain_header-plain_header :
    (c : Crates) (r : ClientHeader)
    → IsClientHeader r
    → parse_plain_header c (plain_header r) ≡ ok (request_of c r)
parse_plain_header-plain_header c r is =
    let b = length r.padding * 16 + r.security in
    let low : bit_and b 0x0f ≡ r.security =
      bit_and_0x0f b (omega (arith, is.security_size, is.padding_size))
      ∙ omega (arith, is.security_size) in
    let port : be16 (r.port / 256 % 256) (r.port % 256) ≡ r.port = omega (arith, is.port_size) in
    rw
      (parse_plain_header-Looks c (plain_header r) (host_text r.host)
        (41 + length (host_body r.host)) (length (header_prefix r)) (looks r is))
      (rw
        (
          fixed_at r is 5 (omega arith),
          fixed_at r is 6 (omega arith),
          key_at r is,
          iv_at r is,
          fixed_at r is 0 (omega arith),
          fixed_at r is 1 (omega arith),
          fixed_at r is 2 (omega arith),
        )
        (rw (low, port) refl))
