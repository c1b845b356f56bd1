-- ===== src/Tests/Vmess.antt =====
-- The theorems on src/vmess/mod.rs, at concrete inputs, with a cipher that only adds its nonce.
use ruproxy.Vmess.Process.Relays.{Carries, process-sealed_request}
use ruproxy.Io.{ok, aead_decrypt_failed, read_exact}
use ruproxy.Target.{name}
use ruproxy.Vmess.Header.Parsed.{ClientHeader, plain_header, IsClientHeader, request_of}
use ruproxy.Vmess.Header.{
  parse_plain_header, header_len_key, header_len_iv, header_key, header_iv, decode_request_header,
  validate_auth_id, parse_header_host, parse_checksum,
}
use ruproxy.Vmess.Body.Relay.{IsRead, relay_up-relay_down}
use ruproxy.Vmess.Crypto.{Crates, chunk_nonce, vmess_kdf, kdf_fold, kdf_next, fnv1a32_from}
use ruproxy.Vmess.Crypto.Laws.{Documented}
use ruproxy.Vmess.Header.Request.{IsAuthId, auth_block, sealed_request}
use ruproxy.Vmess.Header.Fresh.{
  HasChecksum, plain_id, IsFresh, time_of, decode_request_header-IsFresh,
  decode_request_header-replay,
}
use ruproxy.Vmess.Body.{relay_up, relay_down}
use ruproxy.Vmess.Body.AuthLen.{Rejects, relay_up-auth_len}
use ruproxy.Bytes.{Bytes, bytes_eq, u16_bytes, bytes_eq_refl}
use ruproxy.Text.{is_utf8, from_utf8}
use ruproxy.Prelude.{
  ◌+◌, ◌-◌, ◌*◌, ◌%◌, ◌^◌, ◌≤◌, ◌≡◌, refl, ◌∙◌, subst, Option, none, some, List, [], ◌∷◌, ◌++◌, ltb,
  length, take, drop, if◌then◌else◌, arith, All, length-append, replicate, le→ltb,
  drop-length_append, take-length_append, take-append,
}

abbrev add_nonce : Bytes → Bytes → Bytes
add_nonce nonce pt = pt ++ (nonce ++ replicate 4 0)

-- The message, if the nonce is there.
abbrev check_nonce : Bytes → Bytes → Option Bytes
check_nonce nonce ct =
    if ltb (length ct) 16
    then none
    else if bytes_eq (take 12 (drop (length ct - 16) ct)) nonce
    then some (take (length ct - 16) ct)
    else none

abbrev toy : Crates
toy = record {
  aes_encrypt = λ key nonce pt aad. some (add_nonce nonce pt);
  aes_decrypt = λ key nonce ct aad. check_nonce nonce ct;
  chacha_encrypt = λ key nonce pt. some (add_nonce nonce pt);
  chacha_decrypt = λ key nonce ct. check_nonce nonce ct;
  aes_block_decrypt = λ key block. block;
  shake128 = λ seed i. (i * 4099 + 77) % 2 ^ 16;
  hmac_sha256 = λ key msg. replicate 32 5;
  sha256 = λ msg. replicate 32 6;
  md5 = λ msg. replicate 16 7;
  crc32 = λ msg. 1000;
}

check_nonce-add_nonce :
    (nonce pt : Bytes)
    → length nonce ≡ 12
    → (length (add_nonce nonce pt) ≡ length pt + 16)
      × (check_nonce nonce (add_nonce nonce pt) ≡ some pt)
check_nonce-add_nonce nonce pt n =
    let tag = nonce ++ replicate 4 0 in
    let size : length (add_nonce nonce pt) ≡ length pt + 16 =
      length-append pt tag ∙ omega (arith, length-append nonce (replicate 4 0)) in
    let back : length pt + 16 - 16 ≡ length pt = omega arith in
    (
      size,
      rw (size, le→ltb (length pt + 16) 16 (omega arith), back)
          (rw
            (
              drop-length_append pt tag,
              take-length_append pt tag,
              take-append 12 nonce (replicate 4 0) n,
            )
            (rw (bytes_eq_refl nonce) refl)),
    )

toy-Documented : Documented toy
toy-Documented = record {
  aes = λ key nonce pt aad k n small.
      let (size, opened) = check_nonce-add_nonce nonce pt n in
      (add_nonce nonce pt, refl, size, opened);
  chacha = λ key nonce pt k n small.
      let (size, opened) = check_nonce-add_nonce nonce pt n in
      (add_nonce nonce pt, refl, size, opened);
  hmac_size = λ key msg. refl;
  sha256_size = λ msg. refl;
  md5_size = λ msg. refl;
  shake_size = λ seed i. omega arith;
}

abbrev key : Bytes
key = replicate 16 1

abbrev iv : Bytes
iv = replicate 16 2

abbrev client : ClientHeader
client = record {
  iv = iv;
  key = key;
  token = 9;
  option = 0x0d;
  security = 3;
  reserved = 0;
  port = 443;
  host = name (b'a' ∷ b'.' ∷ b'b' ∷ []);
  padding = 0 ∷ 0 ∷ [];
}

client-IsClientHeader : IsClientHeader client
unfolding is_utf8
client-IsClientHeader = record {
  iv_size = refl;
  key_size = refl;
  security_size = omega arith;
  port_size = omega arith;
  is_host = (refl, omega arith, omega arith);
  padding_size = omega arith;
}

abbrev auth_id : Bytes
auth_id = auth_block toy 500 (1 ∷ 2 ∷ 3 ∷ 4 ∷ [])

auth_id-IsAuthId : IsAuthId toy 600 key auth_id
auth_id-IsAuthId = record {
  ts = 500;
  random = 1 ∷ 2 ∷ 3 ∷ 4 ∷ [];
  size = refl;
  block = refl;
  random_size = refl;
  crc_size = omega arith;
  ts_size = omega arith;
  now_size = omega arith;
  early = omega arith;
  late = omega arith;
}

abbrev nonce : Bytes
nonce = replicate 8 3

abbrev reads : List Bytes
reads = (10 ∷ 11 ∷ []) ∷ (12 ∷ []) ∷ []

reads-IsRead : All IsRead reads
reads-IsRead = ((omega arith, omega arith), ((omega arith, omega arith), tt))

abbrev answers : Bytes → Option (List Bytes)
answers target = some reads

process-sealed_request_example :
    (enc_len enc_hdr body : Bytes) × (toy.aes_encrypt
        (header_len_key toy key auth_id nonce)
        (header_len_iv toy key auth_id nonce)
        (u16_bytes (length (plain_header client)))
        auth_id
      ≡ some enc_len)
    × (toy.aes_encrypt
          (header_key toy key auth_id nonce)
          (header_iv toy key auth_id nonce)
          (plain_header client)
          auth_id
        ≡ some enc_hdr)
    × (relay_down toy key iv 0x0d 3 (λ i j. j) reads ≡ (body, none))
    × Carries toy 600 key answers
        (λ i j. i)
        client
        (sealed_request auth_id enc_len nonce enc_hdr body)
        reads
        reads
process-sealed_request_example =
    process-sealed_request toy 600 key auth_id nonce client answers (λ i j. i) (λ i j. j) reads
      reads toy-Documented auth_id-IsAuthId refl client-IsClientHeader refl refl refl reads-IsRead
      reads-IsRead

relay_up-relay_down_example :
    (out : Bytes) × (relay_down toy key iv 0x0d 4 (λ i j. j) reads ≡ (out, none))
    × (relay_up toy key iv 0x0d 4 out ≡ (10 ∷ 11 ∷ 12 ∷ [], none))
relay_up-relay_down_example =
    relay_up-relay_down toy key iv 0x0d 4 (λ i j. j) reads toy-Documented refl refl refl refl
      reads-IsRead

toy-Rejects : Rejects toy key iv
unfolding bytes_eq
toy-Rejects = record {
  rejects = λ total ct e.
      let same : add_nonce (chunk_nonce iv 1) (u16_bytes total) ≡ ct = cc in
      subst (λ x. check_nonce (chunk_nonce iv 0) x ≡ none) same refl;
}

relay_up-auth_len_example :
    relay_up toy key iv 0x1d 3 (relay_down toy key iv 0x1d 3 (λ i j. j) reads).0
    ≡ ([], some aead_decrypt_failed)
relay_up-auth_len_example =
    relay_up-auth_len toy key iv 0x1d 3 (λ i j. j) reads toy-Documented toy-Rejects refl refl refl
      refl refl reads-IsRead

abbrev sent : Bytes
sent =
    sealed_request auth_id
      (add_nonce (header_len_iv toy key auth_id nonce) (u16_bytes (length (plain_header client))))
      nonce (add_nonce (header_iv toy key auth_id nonce) (plain_header client)) []

sent-decoded : decode_request_header toy 600 key sent ≡ ok (request_of toy client, [])
unfolding decode_request_header validate_auth_id read_exact vmess_kdf kdf_fold kdf_next bytes_eq
    parse_plain_header parse_header_host parse_checksum fnv1a32_from from_utf8 is_utf8
sent-decoded = refl

-- The same bytes a little later.
sent-later : decode_request_header toy 610 key sent ≡ ok (request_of toy client, [])
unfolding decode_request_header validate_auth_id read_exact vmess_kdf kdf_fold kdf_next bytes_eq
    parse_plain_header parse_header_host parse_checksum fnv1a32_from from_utf8 is_utf8
sent-later = refl

decode_request_header-IsFresh_example :
    (id tail : Bytes) × (sent ≡ id ++ tail)
    × (length id ≡ 16)
    × HasChecksum toy (plain_id toy key id)
    × IsFresh (time_of (plain_id toy key id)) 600
decode_request_header-IsFresh_example =
    decode_request_header-IsFresh toy 600 key sent (omega arith) (omega arith) sent-decoded

decode_request_header-replay_example : (610 ≤ 600 + 240) × (600 ≤ 610 + 240)
decode_request_header-replay_example =
    decode_request_header-replay toy 600 610 key sent sent (omega arith) (omega arith) refl
      sent-decoded sent-later
