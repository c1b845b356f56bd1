-- ===== src/Tests/Reality.antt =====
-- The theorems on src/vless/tls/reality.rs, at concrete inputs and with stand-ins for the parameters.
use ruproxy.Reality.Verify.Safe.{HasShortId, verify_reality_client-HasShortId}
use ruproxy.Reality.Verify.{session_id, random}
use ruproxy.Text.{trim, drop_white, white_front, white_back, white1, white2, white3}
use ruproxy.Bytes.{Bytes}
use ruproxy.Prelude.{
  ℕ, ◌+◌, ◌-◌, ◌≡◌, refl, ap, Bool, true, false, Option, none, some, List, [], ◌∷◌, ◌++◌, arith,
  replicate, take, drop, length, inl, inr, take-length_append, length-append, ◌∙◌,
}
use ruproxy.Io.{ok}
use ruproxy.Reality.Der.{der_encode_tlv, length_field}
use ruproxy.Reality.Der.Replaced.{certificate}
use ruproxy.Reality.Hello.{
  parse_x25519_key_share, shares_from, extract_x25519_from_key_share, cipher_suite_prefers_aes,
}
use ruproxy.Reality.Hello.Parts.{Part}
use ruproxy.Reality.Hello.Shares.{shares_bytes, offered_key, parse_x25519_key_share-shares_bytes}
use ruproxy.Reality.Hello.Extensions.{share_of, hello_tail}
use ruproxy.Reality.Hello.Suites.{suites_bytes}
use ruproxy.Reality.Verify.{
  RealityConfig, Primitives, verify_reality_client, accept, check_config, server_private,
  base64_url_decode, short_id, check_short_ids, decrypt, info, cleared,
}
use ruproxy.Reality.Verify.Record.{hello}
use ruproxy.Reality.Verify.Accepted.{client_id, verify_reality_client-client_id}
use ruproxy.Reality.Verify.Checked.{IsClients, verify_reality_client-IsClients}
use ruproxy.Reality.Verify.Certified.{accept-certificate, certified}

-- An X25519MLKEM768 share in front of an x25519 share.
abbrev shares : List Part
shares = (0x11ec, replicate 1216 7) ∷ (0x001d, replicate 32 5) ∷ []

parse_x25519_key_share-shares_bytes_example :
    parse_x25519_key_share (shares_bytes shares (9 ∷ [])) ≡ offered_key shares none
parse_x25519_key_share-shares_bytes_example =
    parse_x25519_key_share-shares_bytes shares (9 ∷ []) (omega arith) (omega arith)

abbrev toy_open : Bytes → Bytes → Bytes → Bytes → Option Bytes
toy_open key nonce text aad = some (take (length text - 16) text)

abbrev toy_seal : Bool → Bytes → Bytes → Bytes → Bytes → Bytes
toy_seal b key nonce text aad = text ++ replicate 16 0

abbrev prim : Primitives
prim = record {
  base64_url = λ s. some s;
  base64_standard = λ s. none;
  hex_decode = λ s. some s;
  x25519 = λ a b. [];
  hkdf = λ salt key info. some (replicate 32 1);
  hmac_sha512 = λ key text. replicate 64 2;
  aes_open = toy_open;
  chacha_open = toy_open;
}

toy_taken :
    (text : Bytes) → take (length (text ++ replicate 16 0) - 16) (text ++ replicate 16 0) ≡ text
toy_taken text =
    let e : length (text ++ replicate 16 0) - 16 ≡ length text =
      omega (arith, length-append text (replicate 16 0)) in
    ap (λ n. take n (text ++ replicate 16 0)) e ∙ take-length_append text (replicate 16 0)

toy_open-seal :
    (b : Bool) (key nonce text aad : Bytes)
    → (decrypt prim b key nonce (toy_seal b key nonce text aad) aad ≡ some text)
      × (length (toy_seal b key nonce text aad) ≡ length text + 16)
toy_open-seal true key nonce text aad =
    (ap (λ t. some t) (toy_taken text), length-append text (replicate 16 0))
toy_open-seal false key nonce text aad =
    (ap (λ t. some t) (toy_taken text), length-append text (replicate 16 0))

abbrev cfg : RealityConfig
cfg = record { private_key = replicate 32 b'k'; short_ids = (1 ∷ 2 ∷ []) ∷ [] }

abbrev public : Bytes → Bytes
public a = replicate 32 5

abbrev exts : List Part
exts = (0x0033, shares_bytes ((0x001d, replicate 32 5) ∷ []) []) ∷ []

abbrev suites : List ℕ
suites = 0x1303 ∷ 0x1301 ∷ []

abbrev hidden : Bytes
hidden = replicate 8 0 ++ (1 ∷ 2 ∷ replicate 6 0)

abbrev tail : Bytes
tail = hello_tail (suites_bytes suites) (0 ∷ []) exts []

abbrev hdr : Bytes
hdr = 3 ∷ 1 ∷ 0 ∷ 200 ∷ []

abbrev msg : Bytes
msg = 0 ∷ 0 ∷ 196 ∷ 3 ∷ 3 ∷ []

abbrev client_hello : Bytes
client_hello =
    hello hdr msg (replicate 32 6)
      (client_id prim public toy_seal hdr msg (replicate 32 6) tail suites (replicate 32 1) hidden)
      tail

verify_reality_client-client_id_example :
    verify_reality_client prim cfg client_hello ≡ ok (replicate 32 1)
unfolding share_of parse_x25519_key_share shares_from check_config check_short_ids short_id
    server_private base64_url_decode trim drop_white white_front white_back white1 white2 white3
verify_reality_client-client_id_example =
    verify_reality_client-client_id prim public toy_seal cfg hdr msg (replicate 32 6) (0 ∷ []) []
      suites exts (replicate 32 b'k') [] (replicate 32 1) hidden (λ a b. refl) toy_open-seal refl
      refl refl (omega arith) (omega arith) (omega arith) (omega arith) refl refl refl refl refl
      (inl (1 ∷ 2 ∷ [], refl, inr refl))

verify_reality_client-HasShortId_example :
    (ecdhe_pub : Bytes) × (priv : Bytes) × (plaintext : Bytes) × (extract_x25519_from_key_share
        client_hello
      ≡ ok ecdhe_pub)
    × (server_private prim cfg ≡ ok priv)
    × (prim.hkdf (take 20 (random client_hello)) (prim.x25519 priv ecdhe_pub) info
        ≡ some (replicate 32 1))
    × (decrypt prim
          (cipher_suite_prefers_aes client_hello)
          (replicate 32 1)
          (drop 20 (random client_hello))
          (session_id client_hello)
          (cleared client_hello)
        ≡ some plaintext)
    × HasShortId prim cfg.short_ids plaintext
verify_reality_client-HasShortId_example =
    verify_reality_client-HasShortId prim cfg client_hello (replicate 32 1)
      verify_reality_client-client_id_example

cfg_checked : check_config prim cfg ≡ ok tt
unfolding check_config check_short_ids short_id server_private base64_url_decode trim drop_white
    white_front white_back white1 white2 white3
cfg_checked = refl

verify_reality_client-IsClients_example : IsClients (verify_reality_client prim cfg (0x16 ∷ []))
verify_reality_client-IsClients_example =
    verify_reality_client-IsClients prim cfg (0x16 ∷ []) cfg_checked

accept-certificate_example :
    accept prim cfg
      (replicate 44 8)
      (certificate
        (der_encode_tlv 0x30 (replicate 200 3))
        (der_encode_tlv 0x30 (4 ∷ []))
        (der_encode_tlv 0x03 (0 ∷ [])))
      client_hello
    ≡ certified prim
        (replicate 44 8)
        (certificate (der_encode_tlv 0x30 (replicate 200 3)) (der_encode_tlv 0x30 (4 ∷ [])))
        (verify_reality_client prim cfg (take 2048 client_hello))
unfolding length_field
accept-certificate_example =
    accept-certificate prim cfg (replicate 44 8) client_hello 0x30 0x30 (replicate 200 3) (4 ∷ [])
      (0 ∷ []) (omega arith) (omega arith) (λ k. omega arith)
