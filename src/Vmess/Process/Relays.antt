-- ===== src/Vmess/Process/Relays.antt =====
-- A whole connection of src/vmess/mod.rs, seen from a client that follows the protocol.
use ruproxy.Vmess.Body.Relay.{IsRead, relay_up-relay_down}
use ruproxy.Vmess.Body.{has_flag, copy_all, opt_auth_len, relay_up, relay_down}
use ruproxy.Vmess.Crypto.Salts.{
  kdf_resp_len_key, kdf_resp_len_iv, kdf_resp_pay_key, kdf_resp_pay_iv,
}
use ruproxy.Vmess.Body.Chunk.{is_known}
use ruproxy.Target.{target_text, host_text}
use ruproxy.Vmess.Header.Request.{IsAuthId, decode_request_header-sealed, sealed_request}
use ruproxy.Vmess.Header.Parsed.{ClientHeader, IsClientHeader, request_of, plain_header}
use ruproxy.Vmess.Crypto.Laws.{Documented, length-kdf16, length-kdf12, length-sha256_16}
use ruproxy.Bytes.{Bytes, u16_bytes, be16}
use ruproxy.Vmess.Crypto.{Crates, kdf16, aead_open, kdf12, sha256_16}
use ruproxy.Vmess.Header.{
  encode_response_header, VmessRequest, header_len_key, header_len_iv, header_key, header_iv,
}
use ruproxy.Vmess.Process.{process}
use ruproxy.Prelude.{
  ℕ, ◌+◌, ◌≡◌, refl, true, false, Option, none, some, List, [], ◌∷◌, ◌++◌, length, get_or, arith,
  All, append_assoc,
}
use ruproxy.Io.{◌>>=◌, Reader, read_exact, ok, lift, read_exact-append}

-- The client's side of the response header: the payload that it opens.
abbrev pub open_response : Crates → VmessRequest → Reader Bytes
open_response c req = do
  enc_len ← read_exact 18
  plen ← lift (
      aead_open c enc_len (kdf16 c req.response_body_key (kdf_resp_len_key ∷ []))
        (kdf12 c req.response_body_iv (kdf_resp_len_iv ∷ [])) [])
  enc_pay ← read_exact (be16 (get_or plen 0 0) (get_or plen 1 0) + 16)
  lift (
      aead_open c enc_pay (kdf16 c req.response_body_key (kdf_resp_pay_key ∷ []))
        (kdf12 c req.response_body_iv (kdf_resp_pay_iv ∷ [])) [])

encode_response_header-open_response :
    (c : Crates) (req : VmessRequest)
    → Documented c
    → (response : Bytes) × (encode_response_header c req ≡ ok response)
      × ((rest : Bytes)
          → open_response c req (response ++ rest)
            ≡ ok (req.response_token ∷ req.option ∷ 0x00 ∷ 0x00 ∷ [], rest))
unfolding encode_response_header
encode_response_header-open_response c req laws =
    let rk = req.response_body_key in
    let ri = req.response_body_iv in
    let payload = req.response_token ∷ req.option ∷ 0x00 ∷ 0x00 ∷ [] in
    let (l, l_enc, l_size, l_dec) =
      laws.aes (kdf16 c rk (kdf_resp_len_key ∷ [])) (kdf12 c ri (kdf_resp_len_iv ∷ []))
        (u16_bytes 4) [] (length-kdf16 c laws rk (kdf_resp_len_key ∷ []))
        (length-kdf12 c laws ri (kdf_resp_len_iv ∷ [])) (omega arith) in
    let (p, p_enc, p_size, p_dec) =
      laws.aes (kdf16 c rk (kdf_resp_pay_key ∷ [])) (kdf12 c ri (kdf_resp_pay_iv ∷ [])) payload []
        (length-kdf16 c laws rk (kdf_resp_pay_key ∷ []))
        (length-kdf12 c laws ri (kdf_resp_pay_iv ∷ [])) (omega arith) in
    (
      l ++ p,
      rw l_enc (rw p_enc refl),
      λ rest.
          rw (append_assoc l p rest, read_exact-append 18 l (p ++ rest) (omega arith))
            (rw l_dec (rw (read_exact-append 20 p rest (omega arith)) (rw p_dec refl))),
    )

-- What the two sides exchange, if the connection only carries data.
abbrev pub Carries :
    Crates
    → ℕ
    → Bytes
    → (Bytes → Option (List Bytes))
    → (ℕ → ℕ → ℕ)
    → ClientHeader
    → Bytes
    → List Bytes
    → List Bytes
    → Type 0
Carries c now cmd_key connect random r sent sends reads =
    (response down : Bytes) × (process c now cmd_key connect random sent
      ≡ ok (record {
        dialled = target_text (host_text r.host) r.port;
        to_target = copy_all sends;
        to_client = response ++ down;
      }))
    × ((rest : Bytes)
        → open_response c (request_of c r) (response ++ rest)
          ≡ ok (r.token ∷ r.option ∷ 0x00 ∷ 0x00 ∷ [], rest))
    × (relay_up c (sha256_16 c r.key) (sha256_16 c r.iv) r.option r.security down
        ≡ (copy_all reads, none))

-- Let a client that knows the key send a header for a target, its auth id fresh and its parts
-- sealed, and then chunks with the security and the options of the header, without encrypted
-- lengths, and let the target be reached; then `process` dials that target and writes to it
-- exactly the client's data, the response header opens to the client's token and options, and
-- behind it the client reads exactly what the target sent, whatever paddings were drawn. The
-- crates must do what is documented of them; no read of the target or of the client's data is
-- empty or above the size of a chunk.
pub process-sealed_request :
    (c : Crates) (now : ℕ) (cmd_key auth_id nonce : Bytes) (r : ClientHeader)
    (connect : Bytes → Option (List Bytes)) (random padding : ℕ → ℕ → ℕ) (sends reads : List Bytes)
    → Documented c
    → IsAuthId c now cmd_key auth_id
    → length nonce ≡ 8
    → IsClientHeader r
    → is_known r.security ≡ true
    → has_flag r.option opt_auth_len ≡ false
    → connect (target_text (host_text r.host) r.port) ≡ some reads
    → All IsRead reads
    → All IsRead sends
    → (enc_len enc_hdr body : Bytes) × (c.aes_encrypt
          (header_len_key c cmd_key auth_id nonce)
          (header_len_iv c cmd_key auth_id nonce)
          (u16_bytes (length (plain_header r)))
          auth_id
        ≡ some enc_len)
      × (c.aes_encrypt
            (header_key c cmd_key auth_id nonce)
            (header_iv c cmd_key auth_id nonce)
            (plain_header r)
            auth_id
          ≡ some enc_hdr)
      × (relay_down c r.key r.iv r.option r.security padding sends ≡ (body, none))
      × Carries c now cmd_key connect random r
          (sealed_request auth_id enc_len nonce enc_hdr body)
          sends
          reads
unfolding process
process-sealed_request c now cmd_key auth_id nonce r connect random padding sends reads laws a n is
      known flag reached h g =
    let (enc_len, enc_hdr, len_enc, hdr_enc, decoded) =
      decode_request_header-sealed c now cmd_key auth_id nonce r laws a n is in
    let (body, sent, received) =
      relay_up-relay_down c r.key r.iv r.option r.security padding sends laws known is.key_size
        is.iv_size flag g in
    let (response, responded, opened) =
      encode_response_header-open_response c (request_of c r) laws in
    let (down, answered, answer) =
      relay_up-relay_down c (sha256_16 c r.key) (sha256_16 c r.iv) r.option r.security random reads
        laws known (length-sha256_16 c laws r.key) (length-sha256_16 c laws r.iv) flag h in
    (
      enc_len,
      enc_hdr,
      body,
      len_enc,
      hdr_enc,
      sent,
      (
        response,
        down,
        rw (decoded body) (rw reached (rw responded (rw (received, answered) refl))),
        opened,
        answer,
      ),
    )
