-- ===== src/Reality/Verify.antt =====
-- Who is let in by src/vless/tls/reality.rs, with which key, and what certificate is made. The
-- cryptography, the decoders of base64 and hex, and the key pair and the certificate that rcgen makes
-- are parameters.
pub mod Safe
pub mod Checked
pub mod Record
pub mod Accepted
pub mod Certified
use ruproxy.Prelude.{
  ℕ, zero, suc, ◌+◌, ◌-◌, Bool, true, false, not, ◌&&◌, ◌||◌, Option, none, some, List, [], ◌∷◌,
  ◌++◌, ◌==◌, ltb, leb, length, take, drop, get_or, if◌then◌else◌, replicate,
}
use ruproxy.Bytes.{Bytes, bytes_eq}
use ruproxy.Io.{
  Result, Fault, ok, err, or_fault, and_then, record_too_short, not_handshake, not_client_hello,
  bad_session_id_len, bad_base64, bad_private_key, hkdf_failed, not_reality, bad_short_id,
  short_id_mismatch, bad_spki, not_certified, forwarded,
}
use ruproxy.Reality.Der.{replace_signature_in_cert_der}
use ruproxy.Reality.Hello.{
  slice, cipher_suite_prefers_aes, extract_x25519_from_key_share, sid_offset,
}
use ruproxy.Text.{trim}

pub record RealityConfig : Type 0 where
  pub private_key : Bytes
  pub short_ids : List Bytes

-- `hkdf` is `Hkdf::<Sha256>::new(Some(salt), key)` and `expand(info)` to 32 bytes; the AEADs take the
-- key, the nonce, the message and the associated data.
pub record Primitives : Type 0 where
  pub base64_url : Bytes → Option Bytes
  pub base64_standard : Bytes → Option Bytes
  pub hex_decode : Bytes → Option Bytes
  pub x25519 : Bytes → Bytes → Bytes
  pub hkdf : Bytes → Bytes → Bytes → Option Bytes
  pub hmac_sha512 : Bytes → Bytes → Bytes
  pub aes_open : Bytes → Bytes → Bytes → Bytes → Option Bytes
  pub chacha_open : Bytes → Bytes → Bytes → Bytes → Option Bytes

abbrev pub record_hdr : ℕ
record_hdr = 5

abbrev pub random_offset : ℕ
random_offset = 11

abbrev pub random_len : ℕ
random_len = 32

abbrev pub sid_len_offset : ℕ
sid_len_offset = 43

-- The bytes of "REALITY".
abbrev pub info : Bytes
info = 82 ∷ 69 ∷ 65 ∷ 76 ∷ 73 ∷ 84 ∷ 89 ∷ []

abbrev pub random : Bytes → Bytes
random record' = slice record' random_offset random_len

abbrev pub session_id : Bytes → Bytes
session_id record' = slice record' sid_offset 32

-- The handshake message with its session id cleared.
abbrev pub cleared : Bytes → Bytes
cleared record' =
    let aad : Bytes = drop record_hdr record' in
    let aad_sid_start : ℕ = sid_offset - record_hdr in
    take aad_sid_start aad ++ (replicate 32 0 ++ drop (aad_sid_start + 32) aad)

module _ (prim : Primitives) where
  unfoldable pub base64_url_decode : Bytes → Result Bytes
  base64_url_decode s = elim (prim.base64_url (trim s)) [
    | some v ↦ ok v
    | none ↦ or_fault bad_base64 (prim.base64_standard (trim s))
  ]

  unfoldable pub server_private : RealityConfig → Result Bytes
  server_private cfg =
      and_then (base64_url_decode cfg.private_key)
        λ priv_bytes. if length priv_bytes == 32 then ok priv_bytes else err bad_private_key

  -- One short id as `build` and `verify_reality_client` decode it.
  unfoldable pub short_id : Bytes → Result Bytes
  short_id sid_hex =
      and_then (or_fault bad_short_id (prim.hex_decode sid_hex))
        λ sid_bytes. if leb (length sid_bytes) 8 then ok sid_bytes else err bad_short_id

  -- The loop over the short ids.
  unfoldable pub match_short_id : List Bytes → Bytes → Result (Unit {0})
  match_short_id [] plaintext = err short_id_mismatch
  match_short_id (sid_hex ∷ short_ids) plaintext =
      let rest = match_short_id short_ids plaintext in
      and_then (short_id sid_hex) λ sid_bytes.
        if length sid_bytes == 0
        then ok tt
        else if leb (8 + length sid_bytes) (length plaintext)
            && bytes_eq (slice plaintext 8 (length sid_bytes)) sid_bytes
        then ok tt
        else rest

  abbrev pub decrypt : Bool → Bytes → Bytes → Bytes → Bytes → Option Bytes
  decrypt use_aes = if use_aes then prim.aes_open else prim.chacha_open

  -- The key of a connection, from the public key of the client.
  unfoldable pub derive_auth_key : RealityConfig → Bytes → Bytes → Result Bytes
  derive_auth_key cfg record' ecdhe_pub = and_then (server_private cfg) λ priv.
      or_fault hkdf_failed (prim.hkdf (take 20 (random record')) (prim.x25519 priv ecdhe_pub) info)

  -- What the session id hides, and whether a short id is in it.
  unfoldable pub open_session : RealityConfig → Bytes → Bytes → Result Bytes
  open_session cfg record' auth_key =
      and_then
        (or_fault not_reality (
          decrypt (cipher_suite_prefers_aes record') auth_key (drop 20 (random record'))
            (session_id record') (cleared record')))
        λ plaintext. and_then (match_short_id cfg.short_ids plaintext) λ u. ok auth_key

  unfoldable pub verify_reality_client : RealityConfig → Bytes → Result Bytes
  verify_reality_client cfg record' =
      if ltb (length record') (sid_offset + 32 + 4)
      then err record_too_short
      else if not (get_or record' 0 0 == 0x16)
      then err not_handshake
      else if not (get_or record' record_hdr 0 == 0x01)
      then err not_client_hello
      else if not (get_or record' sid_len_offset 0 == 32)
      then err bad_session_id_len
      else and_then (extract_x25519_from_key_share record') λ ecdhe_pub.
        and_then (derive_auth_key cfg record' ecdhe_pub)
          λ auth_key. open_session cfg record' auth_key

  -- `build_per_connection_config`, up to the certificate.
  unfoldable pub certify : Bytes → Bytes → Bytes → Result Bytes
  certify spki der auth_key =
      if ltb (length spki) 32
      then err bad_spki
      else replace_signature_in_cert_der der
          (prim.hmac_sha512 auth_key (drop (length spki - 32) spki))

  -- The checks of `build`.
  unfoldable pub check_short_ids : List Bytes → Result (Unit {0})
  check_short_ids [] = ok tt
  check_short_ids (sid_hex ∷ short_ids) =
      let rest = check_short_ids short_ids in and_then (short_id sid_hex) λ sid. rest

  unfoldable pub check_config : RealityConfig → Result (Unit {0})
  check_config cfg = and_then (server_private cfg) λ priv. check_short_ids cfg.short_ids

  -- The match of `accept`: anything but a client goes to the other server.
  abbrev pub outcome : Bytes → Bytes → Result Bytes → Result Bytes
  outcome spki der (ok auth_key) = certify spki der auth_key
  outcome spki der (err e) = err forwarded

  -- `peek_client_hello`: one `recv` shows at most 2048 of the bytes that have arrived so far.
  unfoldable pub peek_client_hello : Bytes → Bytes
  peek_client_hello arrived = take 2048 arrived

  -- `accept`, up to the TLS handshake, when `arrived` has come at the time of its only peek; what
  -- the peer sends later is not looked at. A `recv` that fails is not modelled.
  unfoldable pub accept : RealityConfig → Bytes → Bytes → Bytes → Result Bytes
  accept cfg spki der arrived =
      outcome spki der (verify_reality_client cfg (peek_client_hello arrived))
