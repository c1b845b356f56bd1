-- ===== src/Reality/Verify/Checked.antt =====
-- What the checks of `build` at the start are good for: no client meets an error of the configuration.
use ruproxy.Prelude.{
  ℕ, zero, suc, ◌+◌, ◌≡◌, Bool, true, false, not, ◌&&◌, Option, none, some, List, [], ◌∷◌, ◌==◌,
  ltb, leb, length, get_or, if◌then◌else◌, arith,
}
use ruproxy.Bytes.{Bytes, bytes_eq}
use ruproxy.Io.{
  Result, Fault, ok, err, or_fault, and_then, bad_private_key, bad_base64, bad_short_id, no_x25519,
  hkdf_failed, not_reality,
}
use ruproxy.Reality.Hello.{
  slice, u16_at, group_x25519, ext_key_share, shares_from, extensions_from, parse_x25519_key_share,
  read_extensions, skip_compression, extract_x25519_from_key_share,
}
use ruproxy.Reality.Verify.{
  RealityConfig, Primitives, server_private, short_id, match_short_id, check_short_ids,
  check_config, derive_auth_key, open_session, verify_reality_client,
}
use ruproxy.Reality.Verify.Safe.{from_and_then}

-- No error of the private key or of a short id.
abbrev pub IsClients {ℓ} : {A : Type ℓ} → Result A → Type 0
IsClients (ok a) = Unit
IsClients (err bad_base64) = ⊥
IsClients (err bad_private_key) = ⊥
IsClients (err bad_short_id) = ⊥
IsClients (err e) = Unit

if-IsClients {ℓ} :
    {A : Type ℓ} (b : Bool) (x y : Result A)
    → IsClients x
    → IsClients y
    → IsClients (if b then x else y)
if-IsClients true x y h k = h
if-IsClients false x y h k = k

and_then-IsClients {ℓ κ} :
    {A : Type ℓ} {B : Type κ} (m : Result A) (f : A → Result B)
    → IsClients m
    → ((a : A) → IsClients (f a))
    → IsClients (and_then m f)
and_then-IsClients (ok a) f h go = go a
and_then-IsClients (err bad_base64) f h go = elim h [ ]
and_then-IsClients (err bad_private_key) f h go = elim h [ ]
and_then-IsClients (err bad_short_id) f h go = elim h [ ]
and_then-IsClients (err e) f h go = ground arith

found-IsClients : (o : Option Bytes) → IsClients (or_fault no_x25519 o)
found-IsClients none = tt
found-IsClients (some k) = tt

shares_from-IsClients :
    (fuel : ℕ) (d : Bytes) (end pos : ℕ) (mlkem : Option Bytes)
    → IsClients (shares_from fuel d end pos mlkem)
unfolding shares_from
shares_from-IsClients zero d end pos mlkem = found-IsClients mlkem
shares_from-IsClients (suc fuel) d end pos mlkem =
    if-IsClients (ltb end (pos + 4)) _ _ (found-IsClients mlkem) (
      if-IsClients (ltb end (pos + 4 + u16_at d (pos + 2))) _ _ tt (
        if-IsClients (u16_at d pos == group_x25519 && u16_at d (pos + 2) == 32) _ _ tt
          (shares_from-IsClients fuel d end (pos + 4 + u16_at d (pos + 2)) _)))

share-IsClients : (d : Bytes) → IsClients (parse_x25519_key_share d)
unfolding parse_x25519_key_share
share-IsClients d =
    if-IsClients (ltb (length d) 2) _ _ tt (shares_from-IsClients (length d) d _ 2 none)

extensions_from-IsClients :
    (fuel : ℕ) (d : Bytes) (end pos : ℕ) → IsClients (extensions_from fuel d end pos)
unfolding extensions_from
extensions_from-IsClients zero d end pos = tt
extensions_from-IsClients (suc fuel) d end pos = if-IsClients (ltb end (pos + 4)) _ _ tt (
    if-IsClients (ltb end (pos + 4 + u16_at d (pos + 2))) _ _ tt (
      if-IsClients (u16_at d pos == ext_key_share) _ _
        (share-IsClients (slice d (pos + 4) (u16_at d (pos + 2))))
        (extensions_from-IsClients fuel d end (pos + 4 + u16_at d (pos + 2)))))

extract-IsClients : (d : Bytes) → IsClients (extract_x25519_from_key_share d)
unfolding extract_x25519_from_key_share skip_compression read_extensions
extract-IsClients d =
    let p : ℕ = 78 + u16_at d 76 in
    let q : ℕ = p + 1 + get_or d p 0 in
    if-IsClients (ltb (length d) 78) _ _ tt (
      if-IsClients (ltb (length d) (p + 1)) _ _ tt (
        if-IsClients (ltb (length d) (q + 2)) _ _ tt (
          if-IsClients (ltb (length d) (q + 2 + u16_at d q)) _ _ tt
            (extensions_from-IsClients (length d) d (q + 2 + u16_at d q) (q + 2)))))

or_fault-IsClients :
    (e : Fault) (o : Option Bytes) → IsClients {A = Bytes} (err e) → IsClients (or_fault e o)
or_fault-IsClients e none h = h
or_fault-IsClients e (some k) h = tt

module _ (prim : Primitives) where
  match_short_id-IsClients :
      (short_ids : List Bytes) (plaintext : Bytes)
      → check_short_ids prim short_ids ≡ ok tt
      → IsClients (match_short_id prim short_ids plaintext)
  unfolding check_short_ids match_short_id
  match_short_id-IsClients [] plaintext h = tt
  match_short_id-IsClients (sid_hex ∷ short_ids) plaintext h =
      let later = match_short_id-IsClients short_ids plaintext in
      from_and_then (short_id prim sid_hex) _ h λ sid decoded h1. rw decoded (
        if-IsClients (length sid == 0) _ _ tt (
          if-IsClients
            (leb (8 + length sid) (length plaintext)
              && bytes_eq (slice plaintext 8 (length sid)) sid)
            _ _ tt (later h1)))

  -- If a configuration passes the checks of `build`, then whatever a client sends,
  -- `verify_reality_client` does not fail for a bad private key, bad base64 or a bad short id.
  pub verify_reality_client-IsClients :
      (cfg : RealityConfig) (record' : Bytes)
      → check_config prim cfg ≡ ok tt
      → IsClients (verify_reality_client prim cfg record')
  unfolding verify_reality_client check_config derive_auth_key open_session
  verify_reality_client-IsClients cfg record' h =
      from_and_then (server_private prim cfg) _ h λ priv e h1.
        if-IsClients (ltb (length record') 80) _ _ tt (
          if-IsClients (not (get_or record' 0 0 == 0x16)) _ _ tt (
            if-IsClients (not (get_or record' 5 0 == 0x01)) _ _ tt (
              if-IsClients (not (get_or record' 43 0 == 32)) _ _ tt (
                and_then-IsClients (extract_x25519_from_key_share record') _
                  (extract-IsClients record')
                  λ key.
                    and_then-IsClients (derive_auth_key prim cfg record' key) _
                      (rw (e, derive_auth_key) (or_fault-IsClients hkdf_failed _ tt))
                      λ auth_key.
                        and_then-IsClients _ _ (or_fault-IsClients not_reality _ tt) λ plaintext.
                          and_then-IsClients (match_short_id prim cfg.short_ids plaintext) _
                            (match_short_id-IsClients cfg.short_ids plaintext h1) λ u. tt))))
