-- ===== src/Vmess/Header.antt =====
-- The request and the response header of src/vmess/mod.rs.
pub mod Looks
pub mod Parsed
pub mod Request
pub mod Fresh
use ruproxy.Target.{ipv4_of, ipv6_of, target_text}
use ruproxy.Text.{ipv4_text, from_utf8, ipv6_text}
use ruproxy.Vmess.Crypto.Salts.{
  kdf_hdr_key, kdf_hdr_len_key, kdf_hdr_len_iv, kdf_hdr_iv, kdf_auth_id, kdf_resp_len_key,
  kdf_resp_len_iv, kdf_resp_pay_key, kdf_resp_pay_iv,
}
use ruproxy.Vmess.Crypto.{Crates, kdf16, kdf12, aead_seal, aead_open, fnv1a32, sha256_16}
use ruproxy.Bytes.{Bytes, be_onto, u16_bytes, be32, be16}
use ruproxy.Prelude.{
  ℕ, zero, suc, ◌+◌, ◌-◌, ◌*◌, ◌/◌, ◌%◌, ◌^◌, ◌≤◌, ◌<◌, ◌≡◌, ◌≢◌, refl, sym, ap, ap₂, ◌∙◌, subst,
  Bool, true, false, not, ◌&&◌, ◌||◌, Option, none, some, List, [], ◌∷◌, ◌++◌, ◌==◌, ltb, leb,
  length, take, drop, get_or, if◌then◌else◌, arith, All, ◌⊎◌, inl, inr, min, max, bit_and, bit_or,
  bit_xor, ◌↔◌, append_assoc, append-nil, length-append, Bool-cases,
}
use ruproxy.Io.{
  ◌>>=◌, ◌>>◌, Reader, Result, err, and_then, read_exact, ok, lift, index_out_of_range, missing_fnv,
  header_too_short, unsupported_version, auth_id_checksum, guard, udp_not_supported, auth_id_stale,
  fnv_mismatch, header_len_range, bad_atyp,
}

pub record VmessRequest : Type 0 where
  pub target : Bytes
  pub request_body_key : Bytes
  pub request_body_iv : Bytes
  pub response_body_key : Bytes
  pub response_body_iv : Bytes
  pub response_token : ℕ
  pub option : ℕ
  pub security : ℕ

-- `h[i]` and `h[i..j]`
abbrev pub index : Bytes → ℕ → Result ℕ
index h i = if ltb i (length h) then ok (get_or h i 0) else err index_out_of_range

abbrev pub slice : Bytes → ℕ → ℕ → Result Bytes
slice h i j =
    if leb i j && leb j (length h) then ok (take (j - i) (drop i h)) else err index_out_of_range

-- `parse_plain_header`, the match on the type: the host, and where it ends.
unfoldable pub parse_header_host : Bytes → ℕ → Result (Bytes × ℕ)
parse_header_host h atyp =
    if atyp == 0x01
    then and_then (slice h 41 (41 + 4)) (λ b. ok (ipv4_text (ipv4_of b), 41 + 4))
    else if atyp == 0x02
    then and_then (index h 41)
        (λ l. and_then (slice h 42 (42 + l)) (λ b. and_then (from_utf8 b) (λ d. ok (d, 42 + l))))
    else if atyp == 0x03
    then and_then (slice h 41 (41 + 16))
        (λ b. ok (b'[' ∷ (ipv6_text (ipv6_of b) ++ (b']' ∷ [])), 41 + 16))
    else err bad_atyp

-- `(ts - now).abs() > 120` on i64, as words of 64 bits: a release build wraps, and the absolute
-- value of the least number is negative.
abbrev pub abs_i64 : ℕ → ℕ
abs_i64 d = if ltb d (2 ^ 63) then d else (2 ^ 64 - d) % 2 ^ 64

abbrev pub stale : ℕ → ℕ → Bool
stale ts now = let d = abs_i64 ((ts + (2 ^ 64 - now)) % 2 ^ 64) in ltb 120 d && ltb d (2 ^ 63)

module _ (c : Crates) where
  -- `parse_plain_header`, behind the host, with `idx` behind the padding.
  unfoldable pub parse_checksum : Bytes → Bytes → ℕ → Result VmessRequest
  parse_checksum h host idx =
      if ltb (length h) (idx + 4)
      then err missing_fnv
      else if not (
          fnv1a32 (take idx h)
          == be32 (get_or h idx 0) (get_or h (idx + 1) 0) (get_or h (idx + 2) 0)
              (get_or h (idx + 3) 0))
      then err fnv_mismatch
      else ok (record {
        target = target_text host (be16 (get_or h 38 0) (get_or h 39 0));
        request_body_key = take 16 (drop 17 h);
        request_body_iv = take 16 (drop 1 h);
        response_body_key = sha256_16 c (take 16 (drop 17 h));
        response_body_iv = sha256_16 c (take 16 (drop 1 h));
        response_token = get_or h 33 0;
        option = get_or h 34 0;
        security = bit_and (get_or h 35 0) 0x0f;
      })

  unfoldable pub parse_plain_header : Bytes → Result VmessRequest
  parse_plain_header h =
      if ltb (length h) 41
      then err header_too_short
      else if not (get_or h 0 0 == 1)
      then err unsupported_version
      else if not (get_or h 37 0 == 0x01)
      then err udp_not_supported
      else and_then (parse_header_host h (get_or h 40 0))
          (λ r. parse_checksum h r.0 (r.1 + get_or h 35 0 / 2 ^ 4))

  -- `validate_auth_id`, at the time `now`.
  unfoldable pub validate_auth_id : ℕ → Bytes → Bytes → Result (Unit {0})
  validate_auth_id now auth_id cmd_key =
      let plain = c.aes_block_decrypt (kdf16 c cmd_key (kdf_auth_id ∷ [])) auth_id in
      if not (c.crc32 (take 12 plain) == be_onto 0 (take 4 (drop 12 plain)))
      then err auth_id_checksum
      else if stale (be_onto 0 (take 8 plain)) now
      then err auth_id_stale
      else ok tt

  abbrev pub header_len_key : Bytes → Bytes → Bytes → Bytes
  header_len_key cmd_key auth_id nonce = kdf16 c cmd_key (kdf_hdr_len_key ∷ auth_id ∷ nonce ∷ [])

  abbrev pub header_len_iv : Bytes → Bytes → Bytes → Bytes
  header_len_iv cmd_key auth_id nonce = kdf12 c cmd_key (kdf_hdr_len_iv ∷ auth_id ∷ nonce ∷ [])

  abbrev pub header_key : Bytes → Bytes → Bytes → Bytes
  header_key cmd_key auth_id nonce = kdf16 c cmd_key (kdf_hdr_key ∷ auth_id ∷ nonce ∷ [])

  abbrev pub header_iv : Bytes → Bytes → Bytes → Bytes
  header_iv cmd_key auth_id nonce = kdf12 c cmd_key (kdf_hdr_iv ∷ auth_id ∷ nonce ∷ [])

  unfoldable pub decode_request_header : ℕ → Bytes → Reader VmessRequest
  decode_request_header now cmd_key = do
    auth_id ← read_exact 16
    lift (validate_auth_id now auth_id cmd_key)
    enc_len ← read_exact 18
    nonce ← read_exact 8
    plen ← lift (
        aead_open c enc_len (header_len_key cmd_key auth_id nonce)
          (header_len_iv cmd_key auth_id nonce) auth_id)
    len_hi ← lift (index plen 0)
    len_lo ← lift (index plen 1)
    guard (leb 41 (be16 len_hi len_lo) && leb (be16 len_hi len_lo) 2048) header_len_range
    enc_hdr ← read_exact (be16 len_hi len_lo + 16)
    header ← lift (
        aead_open c enc_hdr (header_key cmd_key auth_id nonce) (header_iv cmd_key auth_id nonce)
          auth_id)
    lift (parse_plain_header header)

  -- `encode_response_header`: what is written.
  unfoldable pub encode_response_header : VmessRequest → Result Bytes
  encode_response_header req =
      and_then
        (aead_seal c (u16_bytes 4) (kdf16 c req.response_body_key (kdf_resp_len_key ∷ []))
          (kdf12 c req.response_body_iv (kdf_resp_len_iv ∷ [])) [])
        (λ enc_len.
          and_then
            (aead_seal c (req.response_token ∷ req.option ∷ 0x00 ∷ 0x00 ∷ [])
              (kdf16 c req.response_body_key (kdf_resp_pay_key ∷ []))
              (kdf12 c req.response_body_iv (kdf_resp_pay_iv ∷ [])) [])
            (λ enc_pay. ok (enc_len ++ enc_pay)))
