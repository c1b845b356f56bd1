-- ===== src/Reality/Verify/Certified.antt =====
-- The certificate that a client of `accept` gets.
use ruproxy.Prelude.{ℕ, ◌-◌, ◌^◌, ◌≤◌, ◌<◌, ◌≡◌, refl, ◌++◌, length, take, drop, inl, inr, le→ltb}
use ruproxy.Bytes.{Bytes}
use ruproxy.Io.{Result, ok, err, forwarded, Result-cases}
use ruproxy.Reality.Der.{der_encode_tlv}
use ruproxy.Reality.Der.Replaced.{
  certificate, bit_string, replace_signature_in_cert_der-certificate,
}
use ruproxy.Reality.Verify.{
  RealityConfig, Primitives, verify_reality_client, certify, accept, peek_client_hello,
}

module _ (prim : Primitives) where
  -- What a Reality client looks for in the certificate: the HMAC of the public key.
  abbrev pub proof_of : Bytes → Bytes → Bytes
  proof_of spki auth_key = prim.hmac_sha512 auth_key (drop (length spki - 32) spki)

  -- A certificate for a client, given the function of its signature, and none for anyone else.
  abbrev pub certified : Bytes → (Bytes → Bytes) → Result Bytes → Result Bytes
  certified spki signed (ok auth_key) = ok (signed (bit_string (proof_of spki auth_key)))
  certified spki signed (err e) = err forwarded

  certify-certificate :
      (spki auth_key : Bytes) (tag1 tag2 : ℕ) (tbs algorithm old : Bytes)
      → 32 ≤ length spki
      → length
          (der_encode_tlv tag1 tbs ++ (der_encode_tlv tag2 algorithm ++ der_encode_tlv 0x03 old))
        < 2 ^ 24
      → length (
          der_encode_tlv tag1 tbs
          ++ (der_encode_tlv tag2 algorithm ++ bit_string (proof_of spki auth_key)))
        < 2 ^ 16
      → certify prim spki
          (certificate
            (der_encode_tlv tag1 tbs)
            (der_encode_tlv tag2 algorithm)
            (der_encode_tlv 0x03 old))
          auth_key
        ≡ ok (
            certificate
              (der_encode_tlv tag1 tbs)
              (der_encode_tlv tag2 algorithm)
              (bit_string (proof_of spki auth_key)))
  unfolding certify
  certify-certificate spki auth_key tag1 tag2 tbs algorithm old n h k =
      rw (le→ltb (length spki) 32 n) (
        replace_signature_in_cert_der-certificate tag1 tag2 tbs algorithm old
          (proof_of spki auth_key) h k)

  -- If the bytes that have arrived when `accept` peeks, their first 2048 at most, pass
  -- `verify_reality_client`, then `accept` makes the certificate of rcgen with its signature
  -- replaced by the HMAC of the last 32 bytes of the public key under the key of the connection,
  -- all else unchanged and every length right; in any other case the connection is forwarded. The
  -- certificate has three parts, the old one less than 2^24 and the new one less than 2^16 bytes
  -- of content, and the public key at least 32.
  pub accept-certificate :
      (cfg : RealityConfig) (spki arrived : Bytes) (tag1 tag2 : ℕ) (tbs algorithm old : Bytes)
      → 32 ≤ length spki
      → length
          (der_encode_tlv tag1 tbs ++ (der_encode_tlv tag2 algorithm ++ der_encode_tlv 0x03 old))
        < 2 ^ 24
      → ((auth_key : Bytes)
          → length (
              der_encode_tlv tag1 tbs
              ++ (der_encode_tlv tag2 algorithm ++ bit_string (proof_of spki auth_key)))
            < 2 ^ 16)
      → accept prim cfg spki
          (certificate
            (der_encode_tlv tag1 tbs)
            (der_encode_tlv tag2 algorithm)
            (der_encode_tlv 0x03 old))
          arrived
        ≡ certified spki
            (certificate (der_encode_tlv tag1 tbs) (der_encode_tlv tag2 algorithm))
            (verify_reality_client prim cfg (take 2048 arrived))
  unfolding accept peek_client_hello
  accept-certificate cfg spki arrived tag1 tag2 tbs algorithm old n h k =
      elim (Result-cases (verify_reality_client prim cfg (take 2048 arrived))) [
        | inl (auth_key, e) ↦
            rw e (certify-certificate spki auth_key tag1 tag2 tbs algorithm old n h (k auth_key))
        | inr (fault, e) ↦ rw e refl
      ]
