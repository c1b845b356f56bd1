-- ===== src/Reality/Verify/Safe.antt =====
-- What `verify_reality_client` has checked when it lets a client in.
use ruproxy.Prelude.{
  suc, ◌+◌, ◌≡◌, refl, ap, ◌∙◌, subst, Bool, true, false, not, ◌&&◌, Option, none, some, List, [],
  ◌∷◌, ◌==◌, ltb, leb, length, take, drop, get_or, if◌then◌else◌, arith, ◌⊎◌, inl, inr, Bool-cases,
  ne→==,
}
use ruproxy.Bytes.{Bytes, bytes_eq, bytes_eq_iff}
use ruproxy.Io.{
  Result, Fault, ok, err, or_fault, and_then, record_too_short, not_handshake, not_client_hello,
  bad_session_id_len, hkdf_failed, not_reality,
}
use ruproxy.Reality.Hello.{slice, cipher_suite_prefers_aes, extract_x25519_from_key_share}
use ruproxy.Reality.Verify.{
  RealityConfig, Primitives, server_private, short_id, match_short_id, derive_auth_key,
  open_session, verify_reality_client, decrypt, random, session_id, cleared, info, sid_len_offset,
}

pub from_and_then {ℓ κ ι} :
    {A : Type ℓ} {B : Type κ} {P : Type ι} (m : Result A) (f : A → Result B) {r : B}
    → and_then m f ≡ ok r
    → ((a : A) → m ≡ ok a → f a ≡ ok r → P)
    → P
from_and_then (ok a) f h go = go a refl h
from_and_then (err e) f h go = cc

or_fault_inv {ℓ} :
    {A : Type ℓ} (e : Fault) (o : Option A) {a : A} → or_fault e o ≡ ok a → o ≡ some a
or_fault_inv e none h = cc
or_fault_inv e (some a) h = cc

pub and_then-cong {ℓ κ} :
    {A : Type ℓ} {B : Type κ} (m : Result A) {a : A} (f : A → Result B)
    → m ≡ ok a
    → and_then m f ≡ f a
and_then-cong m f h = rw h refl

right : (a : Bool) {b : Bool} → (a && b) ≡ true → b ≡ true
right true h = h
right false h = cc

-- Behind the tests of the fixed part of the record.
behind :
    (record' : Bytes) {r : Result Bytes} {key : Bytes}
    → (if ltb (length record') 80
        then err record_too_short
        else if not (get_or record' 0 0 == 0x16)
        then err not_handshake
        else if not (get_or record' 5 0 == 0x01)
        then err not_client_hello
        else if not (get_or record' sid_len_offset 0 == 32)
        then err bad_session_id_len
        else r)
      ≡ ok key
    → r ≡ ok key
behind record' h = ground arith

module _ (prim : Primitives) where
  -- One of the short ids is empty, or stands in the plaintext from its ninth byte on.
  abbrev pub HasShortId : List Bytes → Bytes → Type 0
  HasShortId [] plaintext = ⊥
  HasShortId (sid_hex ∷ short_ids) plaintext =
      ((sid : Bytes) × (short_id prim sid_hex ≡ ok sid)
        × ((sid ≡ []) ⊎ (slice plaintext 8 (length sid) ≡ sid)))
      ⊎ HasShortId short_ids plaintext

  matched :
      (sid sid_hex : Bytes) (short_ids : List Bytes) (plaintext : Bytes) {later : Result (Unit {0})}
      → short_id prim sid_hex ≡ ok sid
      → (if length sid == 0
          then ok tt
          else if leb (8 + length sid) (length plaintext)
              && bytes_eq (slice plaintext 8 (length sid)) sid
          then ok tt
          else later)
        ≡ ok tt
      → (later ≡ ok tt → HasShortId short_ids plaintext)
      → HasShortId (sid_hex ∷ short_ids) plaintext
  matched [] sid_hex short_ids plaintext d h ih = inl ([], d, inl refl)
  matched (b ∷ sid) sid_hex short_ids plaintext d h ih =
      elim (Bool-cases (
        leb (8 + length (b ∷ sid)) (length plaintext)
        && bytes_eq (slice plaintext 8 (length (b ∷ sid))) (b ∷ sid))) [
          | inl e ↦ inl (
            b ∷ sid,
            d,
            inr ((bytes_eq_iff _ _).0 (right (leb (8 + length (b ∷ sid)) (length plaintext)) e)),
          )
          | inr e ↦ inr (ih (rw (ne→== (suc (length sid)) 0 (omega arith)) at (rw e at h)))
        ]

  match_short_id-HasShortId :
      (short_ids : List Bytes) (plaintext : Bytes)
      → match_short_id prim short_ids plaintext ≡ ok tt
      → HasShortId short_ids plaintext
  unfolding match_short_id
  match_short_id-HasShortId [] plaintext h = cc
  match_short_id-HasShortId (sid_hex ∷ short_ids) plaintext h =
      from_and_then (short_id prim sid_hex) _ h λ sid decoded h1.
        matched sid sid_hex short_ids plaintext decoded h1
          (match_short_id-HasShortId short_ids plaintext)

  -- A client is let in only if its record has an x25519 key share, the private key is configured
  -- as 32 bytes, HKDF of the shared secret gives the key that is returned, the session id opens
  -- under that key with the nonce and the associated data of the record, and one of the configured
  -- short ids is empty or stands in what it hides.
  pub verify_reality_client-HasShortId :
      (cfg : RealityConfig) (record' auth_key : Bytes)
      → verify_reality_client prim cfg record' ≡ ok auth_key
      → (ecdhe_pub : Bytes) × (priv : Bytes) × (plaintext : Bytes) × (extract_x25519_from_key_share
            record'
          ≡ ok ecdhe_pub)
        × (server_private prim cfg ≡ ok priv)
        × (prim.hkdf (take 20 (random record')) (prim.x25519 priv ecdhe_pub) info ≡ some auth_key)
        × (decrypt prim
              (cipher_suite_prefers_aes record')
              auth_key
              (drop 20 (random record'))
              (session_id record')
              (cleared record')
            ≡ some plaintext)
        × HasShortId cfg.short_ids plaintext
  unfolding verify_reality_client derive_auth_key open_session
  verify_reality_client-HasShortId cfg record' auth_key h =
      from_and_then (extract_x25519_from_key_share record') _ (behind record' h) λ ecdhe_pub e1 h1.
        from_and_then (derive_auth_key prim cfg record' ecdhe_pub) _ h1 λ key e2 h2.
          from_and_then (server_private prim cfg) _ e2 λ priv e3 h3.
            from_and_then
              (or_fault not_reality (
                decrypt prim (cipher_suite_prefers_aes record') key (drop 20 (random record'))
                  (session_id record') (cleared record')))
              _ h2
              λ plaintext e4 h4.
                from_and_then (match_short_id prim cfg.short_ids plaintext) _ h4 λ u e5 h5.
                  let same : key ≡ auth_key = cc in
                  (
                    ecdhe_pub,
                    priv,
                    plaintext,
                    e1,
                    e3,
                    or_fault_inv hkdf_failed _ h3 ∙ ap (λ k. some k) same,
                    subst
                        (λ k.
                          decrypt prim (cipher_suite_prefers_aes record') k
                            (drop 20 (random record')) (session_id record') (cleared record')
                          ≡ some plaintext)
                        same (or_fault_inv not_reality _ e4),
                    match_short_id-HasShortId cfg.short_ids plaintext e5,
                  )
