-- ===== src/Vmess/Crypto/Laws.antt =====
-- What src/vmess/mod.rs relies on of the crates, and the sizes of the keys that it derives.
use ruproxy.Bytes.{Bytes, IsU16, u16_bytes}
use ruproxy.Vmess.Crypto.{
  Crates, kdf_fold, chunk_nonce, sha256_16, kdf16, chacha_key, vmess_kdf, kdf12, kdf_next, xor_all,
  salt_padded,
}
use ruproxy.Prelude.{
  ℕ, ◌+◌, ◌^◌, ◌<◌, ◌≡◌, ◌∙◌, some, List, [], ◌∷◌, ◌++◌, length, take, drop, arith, length-append,
  length-take, length-drop,
}
use ruproxy.Vmess.Crypto.Salts.{kdf_root}

-- AES-128-GCM and ChaCha20-Poly1305, with keys and nonces of the right sizes, seal less than 2^32
-- bytes with a tag of 16 bytes and open what they sealed; digests have their sizes, and the numbers
-- from SHAKE128 are 16 bits.
pub record Documented (c : Crates) : Type 0 where
  pub aes :
      (key nonce pt aad : Bytes)
      → length key ≡ 16
      → length nonce ≡ 12
      → length pt < 2 ^ 32
      → (ct : Bytes) × (c.aes_encrypt key nonce pt aad ≡ some ct)
        × (length ct ≡ length pt + 16)
        × (c.aes_decrypt key nonce ct aad ≡ some pt)
  pub chacha :
      (key nonce pt : Bytes)
      → length key ≡ 32
      → length nonce ≡ 12
      → length pt < 2 ^ 32
      → (ct : Bytes) × (c.chacha_encrypt key nonce pt ≡ some ct)
        × (length ct ≡ length pt + 16)
        × (c.chacha_decrypt key nonce ct ≡ some pt)
  pub hmac_size : (key msg : Bytes) → length (c.hmac_sha256 key msg) ≡ 32
  pub sha256_size : (msg : Bytes) → length (c.sha256 msg) ≡ 32
  pub md5_size : (msg : Bytes) → length (c.md5 msg) ≡ 16
  pub shake_size : (seed : Bytes) (i : ℕ) → IsU16 (c.shake128 seed i)

module _ (c : Crates) (laws : Documented c) where
  kdf_fold-length :
      (f : Bytes → Bytes) (path : List Bytes) (key : Bytes)
      → ((msg : Bytes) → length (f msg) ≡ 32)
      → length (kdf_fold c f path key) ≡ 32
  unfolding kdf_fold kdf_next
  kdf_fold-length f [] key h = h key
  kdf_fold-length f (salt ∷ path) key h =
      kdf_fold-length (kdf_next c salt f) path key
        (λ msg. h (xor_all 0x5c (salt_padded salt) ++ f (xor_all 0x36 (salt_padded salt) ++ msg)))

  vmess_kdf-length : (key : Bytes) (path : List Bytes) → length (vmess_kdf c key path) ≡ 32
  unfolding vmess_kdf
  vmess_kdf-length key path =
      kdf_fold-length (c.hmac_sha256 kdf_root) path key (laws.hmac_size kdf_root)

  pub length-kdf16 : (key : Bytes) (path : List Bytes) → length (kdf16 c key path) ≡ 16
  length-kdf16 key path =
      length-take 16 (vmess_kdf c key path) ∙ omega (arith, vmess_kdf-length key path)

  pub length-kdf12 : (key : Bytes) (path : List Bytes) → length (kdf12 c key path) ≡ 12
  length-kdf12 key path =
      length-take 12 (vmess_kdf c key path) ∙ omega (arith, vmess_kdf-length key path)

  pub length-sha256_16 : (b : Bytes) → length (sha256_16 c b) ≡ 16
  length-sha256_16 b = length-take 16 (c.sha256 b) ∙ omega (arith, laws.sha256_size b)

  pub length-chacha_key : (key : Bytes) → length (chacha_key c key) ≡ 32
  length-chacha_key key =
      length-append (c.md5 key) (c.md5 (c.md5 key))
      ∙ omega (arith, laws.md5_size key, laws.md5_size (c.md5 key))

pub length-chunk_nonce :
    (iv : Bytes) (count : ℕ) → length iv ≡ 16 → length (chunk_nonce iv count) ≡ 12
length-chunk_nonce iv count h =
    length-append (u16_bytes count) (take 10 (drop 2 iv))
    ∙ omega (arith, length-take 10 (drop 2 iv), length-drop 2 iv)
