-- ===== src/Reality/Verify/Accepted.antt =====
-- A Reality client is let in.
use ruproxy.Prelude.{
  ℕ, ◌+◌, ◌≤◌, ◌≡◌, refl, sym, ap, ◌∙◌, Bool, true, false, ◌&&◌, some, List, [], ◌∷◌, ◌++◌, ◌==◌,
  leb, length, take, drop, get_or, if◌then◌else◌, arith, All, inl, inr, length-append, le→leb,
  le→ltb,
}
use ruproxy.Bytes.{Bytes, IsU16, bytes_eq, bytes_eq_iff}
use ruproxy.Io.{ok, or_fault, bad_short_id}
use ruproxy.Reality.Hello.{slice, cipher_suite_prefers_aes, extract_x25519_from_key_share}
use ruproxy.Reality.Hello.Parts.{Part, parts_bytes, IsPart}
use ruproxy.Reality.Hello.Extensions.{
  share_of, hello_tail, extensions_bytes, extract_x25519_from_key_share-hello_tail,
}
use ruproxy.Reality.Hello.Suites.{suites_bytes, prefers, cipher_suite_prefers_aes-suites_bytes}
use ruproxy.Reality.Verify.{
  RealityConfig, Primitives, server_private, short_id, match_short_id, check_short_ids,
  check_config, derive_auth_key, open_session, verify_reality_client, decrypt, random, session_id,
  cleared, info,
}
use ruproxy.Reality.Verify.Safe.{HasShortId, from_and_then}
use ruproxy.Reality.Verify.Record.{
  hello, head, zeros, length-hello, hello_type, hello_sid_len, random-hello, session_id-hello,
  cleared-hello, hello_front, length-front, drop_header,
}

either : (a b : Bool) → (if a then ok tt else if b then ok tt else ok tt) ≡ ok (tt {0})
either true b = refl
either false true = refl
either false false = refl

module _ (prim : Primitives) where
  length-short_id : (sid_hex sid : Bytes) → short_id prim sid_hex ≡ ok sid → length sid ≤ 8
  unfolding short_id
  length-short_id sid_hex sid h =
      from_and_then (or_fault bad_short_id (prim.hex_decode sid_hex)) _ h λ s e h1. ground arith

  HasShortId-match_short_id :
      (short_ids : List Bytes) (plaintext : Bytes)
      → check_short_ids prim short_ids ≡ ok tt
      → length plaintext ≡ 16
      → HasShortId prim short_ids plaintext
      → match_short_id prim short_ids plaintext ≡ ok tt
  unfolding check_short_ids match_short_id
  HasShortId-match_short_id [] plaintext h l found = elim found [ ]
  HasShortId-match_short_id (sid_hex ∷ short_ids) plaintext h l (inl (sid, decoded, same)) =
      let bound = length-short_id sid_hex sid decoded in
      let fits = le→leb (8 + length sid) (length plaintext) (omega arith) in
      rw decoded (elim same [
        | inl none' ↦ rw none' refl
        | inr there ↦
            rw (fits) (ground (arith, (bytes_eq_iff (slice plaintext 8 (length sid)) sid).1 there))
      ])
  HasShortId-match_short_id (sid_hex ∷ short_ids) plaintext h l (inr later) =
      from_and_then (short_id prim sid_hex) _ h λ sid decoded h1.
        let ih = HasShortId-match_short_id short_ids plaintext h1 l later in
        rw (decoded, ih)
          (either (length sid == 0) (
            leb (8 + length sid) (length plaintext)
            && bytes_eq (slice plaintext 8 (length sid)) sid))

  -- What the tests of the record, the key and the session id come to.
  verify_by :
      (cfg : RealityConfig) (record' rnd sid aad : Bytes) (use_aes : Bool)
      (client_pub priv auth_key plaintext : Bytes)
      → 80 ≤ length record'
      → get_or record' 0 0 ≡ 0x16
      → get_or record' 5 0 ≡ 0x01
      → get_or record' 43 0 ≡ 32
      → random record' ≡ rnd
      → session_id record' ≡ sid
      → cleared record' ≡ aad
      → cipher_suite_prefers_aes record' ≡ use_aes
      → extract_x25519_from_key_share record' ≡ ok client_pub
      → server_private prim cfg ≡ ok priv
      → prim.hkdf (take 20 rnd) (prim.x25519 priv client_pub) info ≡ some auth_key
      → decrypt prim use_aes auth_key (drop 20 rnd) sid aad ≡ some plaintext
      → match_short_id prim cfg.short_ids plaintext ≡ ok tt
      → verify_reality_client prim cfg record' ≡ ok auth_key
  unfolding verify_reality_client derive_auth_key open_session
  verify_by cfg record' rnd sid aad use_aes client_pub priv auth_key plaintext n t5 t0 t43 r s a c x
        k h d m =
      rw (le→ltb (length record') 80 n, t5, t0, t43, x, k) (rw (r, h) (rw (c, s, a, d, m) refl))

  -- A client: `public` gives the public key of a private one, and `seal` is the other side of the
  -- AEADs.
  module _ (public : Bytes → Bytes) (seal : Bool → Bytes → Bytes → Bytes → Bytes → Bytes) where
    abbrev pub client_id : Bytes → Bytes → Bytes → Bytes → List ℕ → Bytes → Bytes → Bytes
    client_id hdr msg rnd tail suites auth_key plaintext =
        seal (prefers suites) auth_key (drop 20 rnd) plaintext
          (drop 5 (hello hdr msg rnd zeros tail))

    -- A ClientHello whose session id was made by a Reality client is let in, with the client's
    -- key: x25519 agrees on both sides, the AEAD that the cipher suites choose opens what was
    -- sealed, over the message with a cleared session id, and the 16 bytes inside hold a
    -- configured short id; the configuration passes the checks of `build`, the first key share
    -- extension gives the client's public key, and the suites and extensions fit their lengths.
    pub verify_reality_client-client_id :
        (cfg : RealityConfig) (hdr msg rnd compression post : Bytes) (suites : List ℕ)
        (exts : List Part) (priv client_priv auth_key plaintext : Bytes)
        → ((a b : Bytes) → prim.x25519 a (public b) ≡ prim.x25519 b (public a))
        → ((b : Bool) (key nonce text aad : Bytes)
            → (decrypt prim b key nonce (seal b key nonce text aad) aad ≡ some text)
              × (length (seal b key nonce text aad) ≡ length text + 16))
        → length hdr ≡ 4
        → length msg ≡ 5
        → length rnd ≡ 32
        → All IsU16 suites
        → IsU16 (length (suites_bytes suites))
        → All IsPart exts
        → IsU16 (length (parts_bytes exts))
        → share_of exts ≡ ok (public client_priv)
        → check_config prim cfg ≡ ok tt
        → server_private prim cfg ≡ ok priv
        → prim.hkdf (take 20 rnd) (prim.x25519 client_priv (public priv)) info ≡ some auth_key
        → length plaintext ≡ 16
        → HasShortId prim cfg.short_ids plaintext
        → verify_reality_client prim cfg (
            hello hdr msg rnd
              (client_id hdr msg rnd
                (hello_tail (suites_bytes suites) compression exts post)
                suites
                auth_key
                plaintext)
              (hello_tail (suites_bytes suites) compression exts post))
          ≡ ok auth_key
    unfolding check_config
    verify_reality_client-client_id cfg hdr msg rnd compression post suites exts priv client_priv
          auth_key plaintext dh aead h4 h5 h32 hs us he ue share checked private derived l16 found =
        let tail = hello_tail (suites_bytes suites) compression exts post in
        let aad = drop 5 (hello hdr msg rnd zeros tail) in
        let sid = client_id hdr msg rnd tail suites auth_key plaintext in
        let record' = hello hdr msg rnd sid tail in
        let front = head hdr msg ++ (rnd ++ (32 ∷ sid)) in
        let opened = aead (prefers suites) auth_key (drop 20 rnd) plaintext aad in
        let sid_len : length sid ≡ 32 = omega (arith, opened.1) in
        let l = length-hello hdr msg rnd sid tail h4 h5 h32 sid_len in
        let split = hello_front hdr msg rnd sid tail h4 h5 h32 sid_len in
        let f76 = length-front hdr msg rnd sid tail h4 h5 h32 sid_len in
        let l1 =
          length-append (suites_bytes suites)
            (length compression ∷ (compression ++ (extensions_bytes exts ++ post))) in
        let l2 = length-append compression (extensions_bytes exts ++ post) in
        let clear : cleared record' ≡ aad =
          cleared-hello hdr msg rnd sid tail h4 h5 h32 sid_len
          ∙ sym (drop_header hdr msg rnd zeros tail h4 h5 h32 refl) in
        let ids : check_short_ids prim cfg.short_ids ≡ ok tt =
          from_and_then (server_private prim cfg) _ checked λ p e k. k in
        verify_by cfg record' rnd sid aad (prefers suites) (public client_priv) priv auth_key
          plaintext (omega arith) refl (hello_type hdr msg rnd sid tail h4 h5 h32 sid_len)
          (hello_sid_len hdr msg rnd sid tail h4 h5 h32 sid_len)
          (random-hello hdr msg rnd sid tail h4 h5 h32 sid_len)
          (session_id-hello hdr msg rnd sid tail h4 h5 h32 sid_len) clear
          (ap cipher_suite_prefers_aes split
            ∙ cipher_suite_prefers_aes-suites_bytes front suites
                (length compression ∷ (compression ++ (extensions_bytes exts ++ post))) f76 hs us)
          (ap extract_x25519_from_key_share split
            ∙ extract_x25519_from_key_share-hello_tail front (suites_bytes suites) compression exts
                post f76 us he ue
            ∙ share)
          private (ap (λ k. prim.hkdf (take 20 rnd) k info) (dh priv client_priv) ∙ derived)
          opened.0 (HasShortId-match_short_id cfg.short_ids plaintext ids l16 found)
