-- ===== src/Vmess/Header/Request.antt =====
-- The encrypted request header of src/vmess/mod.rs: `validate_auth_id` and `decode_request_header`.
use ruproxy.Vmess.Crypto.Laws.{Documented, length-kdf16, length-kdf12}
use ruproxy.Vmess.Header.Parsed.{
  ClientHeader, IsClientHeader, plain_header, header_prefix, front, fixed, length-pre, request_of,
  parse_plain_header-plain_header,
}
use ruproxy.Target.{Host, IsHost, host_body, ip4, name, ip6}
use ruproxy.Io.{ok, read_exact-append}
use ruproxy.Vmess.Crypto.Salts.{
  kdf_auth_id, kdf_hdr_len_key, kdf_hdr_len_iv, kdf_hdr_key, kdf_hdr_iv,
}
use ruproxy.Bytes.{Bytes, u64_bytes, u32_bytes, IsU32, be_onto, be_onto-u64_bytes, u16_bytes, be16}
use ruproxy.Vmess.Header.{
  validate_auth_id, stale, decode_request_header, header_len_key, header_len_iv, header_key,
  header_iv,
}
use ruproxy.Vmess.Crypto.{Crates, kdf16, fnv1a32}
use ruproxy.Prelude.{
  ℕ, ◌+◌, ◌/◌, ◌%◌, ◌^◌, ◌≤◌, ◌<◌, ◌≡◌, refl, ◌∙◌, false, some, [], ◌∷◌, ◌++◌, length, arith,
  length-append, take-append, drop-append, ==_refl, le→leb,
}

-- The auth id in plain: the time, four random bytes and the checksum of both.
abbrev pub auth_block : Crates → ℕ → Bytes → Bytes
auth_block c ts random = (u64_bytes ts ++ random) ++ u32_bytes (c.crc32 (u64_bytes ts ++ random))

-- The auth id of a client whose clock is at most two minutes from `now`, and before 2^63.
pub record IsAuthId (c : Crates) (now : ℕ) (cmd_key auth_id : Bytes) : Type 0 where
  pub ts : ℕ
  pub random : Bytes
  pub size : length auth_id ≡ 16
  pub block :
      c.aes_block_decrypt (kdf16 c cmd_key (kdf_auth_id ∷ [])) auth_id ≡ auth_block c ts random
  pub random_size : length random ≡ 4
  pub crc_size : IsU32 (c.crc32 (u64_bytes ts ++ random))
  pub ts_size : ts < 2 ^ 63
  pub now_size : now < 2 ^ 63
  pub early : ts ≤ now + 120
  pub late : now ≤ ts + 120

validate_auth_id-IsAuthId :
    (c : Crates) (now : ℕ) (cmd_key auth_id : Bytes)
    → IsAuthId c now cmd_key auth_id
    → validate_auth_id c now auth_id cmd_key ≡ ok tt
unfolding validate_auth_id
validate_auth_id-IsAuthId c now cmd_key auth_id a =
    let head = u64_bytes a.ts ++ a.random in
    let size : length head ≡ 12 =
      length-append (u64_bytes a.ts) a.random ∙ omega (arith, a.random_size) in
    let crc = c.crc32 head in
    let check : be_onto 0 (u32_bytes crc) ≡ crc = omega (arith, a.crc_size) in
    let time : be_onto 0 (u64_bytes a.ts) ≡ a.ts =
      be_onto-u64_bytes a.ts (omega (arith, a.ts_size)) in
    let fresh : stale a.ts now ≡ false = ground (arith, a.ts_size, a.now_size, a.early, a.late) in
    rw a.block (
      rw (take-append 12 head (u32_bytes crc) size, drop-append 12 0 head (u32_bytes crc) size)
        (rw (check, time) (rw (==_refl crc) (rw fresh refl))))

host_body-length : (host : Host) → IsHost host → length (host_body host) ≤ 256
host_body-length (ip4 ip) h = omega arith
host_body-length (name d) h = omega (arith, h.1)
host_body-length (ip6 ip) h = omega arith

plain_header-length :
    (r : ClientHeader)
    → IsClientHeader r
    → (41 ≤ length (plain_header r)) × (length (plain_header r) ≤ 2048)
plain_header-length r is =
    let sum = length-append (header_prefix r) (u32_bytes (fnv1a32 (header_prefix r))) in
    let inner = length-append (front r ++ fixed r) (host_body r.host ++ r.padding) in
    let body = length-append (host_body r.host) r.padding in
    let small = host_body-length r.host is.is_host in
    let pre = length-pre r is in let pad = is.padding_size in (omega arith, omega arith)

-- A request header as the client sends it.
abbrev pub sealed_request : Bytes → Bytes → Bytes → Bytes → Bytes → Bytes
sealed_request auth_id enc_len nonce enc_hdr rest =
    auth_id ++ (enc_len ++ (nonce ++ (enc_hdr ++ rest)))

pub decode_request_header-sealed :
    (c : Crates) (now : ℕ) (cmd_key auth_id nonce : Bytes) (r : ClientHeader)
    → Documented c
    → IsAuthId c now cmd_key auth_id
    → length nonce ≡ 8
    → IsClientHeader r
    → (enc_len enc_hdr : Bytes) × (c.aes_encrypt
          (header_len_key c cmd_key auth_id nonce)
          (header_len_iv c cmd_key auth_id nonce)
          (u16_bytes (length (plain_header r)))
          auth_id
        ≡ some enc_len)
      × (c.aes_encrypt
            (header_key c cmd_key auth_id nonce)
            (header_iv c cmd_key auth_id nonce)
            (plain_header r)
            auth_id
          ≡ some enc_hdr)
      × ((rest : Bytes)
          → decode_request_header c now cmd_key (sealed_request auth_id enc_len nonce enc_hdr rest)
            ≡ ok (request_of c r, rest))
unfolding decode_request_header
decode_request_header-sealed c now cmd_key auth_id nonce r laws a n is =
    let size = length (plain_header r) in
    let (low, high) = plain_header-length r is in
    let (enc_len, len_enc, len_size, len_dec) =
      laws.aes (header_len_key c cmd_key auth_id nonce) (header_len_iv c cmd_key auth_id nonce)
        (u16_bytes size) auth_id
        (length-kdf16 c laws cmd_key (kdf_hdr_len_key ∷ auth_id ∷ nonce ∷ []))
        (length-kdf12 c laws cmd_key (kdf_hdr_len_iv ∷ auth_id ∷ nonce ∷ [])) (omega arith) in
    let (enc_hdr, hdr_enc, hdr_size, hdr_dec) =
      laws.aes (header_key c cmd_key auth_id nonce) (header_iv c cmd_key auth_id nonce)
        (plain_header r) auth_id (length-kdf16 c laws cmd_key (kdf_hdr_key ∷ auth_id ∷ nonce ∷ []))
        (length-kdf12 c laws cmd_key (kdf_hdr_iv ∷ auth_id ∷ nonce ∷ [])) (omega arith) in
    let same : be16 (size / 256 % 256) (size % 256) ≡ size = omega arith in
    (
      enc_len,
      enc_hdr,
      len_enc,
      hdr_enc,
      λ rest. rw (read_exact-append 16 auth_id (enc_len ++ (nonce ++ (enc_hdr ++ rest))) a.size) (
          rw (validate_auth_id-IsAuthId c now cmd_key auth_id a) (
            rw (read_exact-append 18 enc_len (nonce ++ (enc_hdr ++ rest)) (omega arith)) (
              rw (read_exact-append 8 nonce (enc_hdr ++ rest) n) (
                rw len_dec (
                  rw (same, le→leb 41 size low, le→leb size 2048 high)
                    (rw (read_exact-append (size + 16) enc_hdr rest (omega arith))
                      (rw hdr_dec (rw (parse_plain_header-plain_header c r is) refl)))))))),
    )
