-- ===== src/Vmess/Crypto.antt =====
-- The keys of src/vmess/mod.rs: `vmess_kdf` and what the protocol derives with it, over the
-- third-party primitives.
pub mod Salts
pub mod Laws
use ruproxy.Io.{Result, aead_encrypt_failed, aead_decrypt_failed, or_fault}
use ruproxy.Bytes.{Bytes, u16_bytes}
use ruproxy.Prelude.{
  ℕ, zero, suc, ◌+◌, ◌-◌, ◌*◌, ◌/◌, ◌%◌, ◌^◌, ◌≤◌, ◌<◌, ◌≡◌, ◌≢◌, refl, sym, ap, ap₂, ◌∙◌, subst,
  Bool, true, false, not, ◌&&◌, ◌||◌, Option, none, some, List, [], ◌∷◌, ◌++◌, ◌==◌, ltb, leb,
  length, take, drop, get_or, if◌then◌else◌, arith, All, ◌⊎◌, inl, inr, min, max, bit_and, bit_or,
  bit_xor, ◌↔◌, append_assoc, append-nil, length-append, Bool-cases, replicate,
}
use ruproxy.Vmess.Crypto.Salts.{kdf_root, kdf_auth_id, cmd_key_salt}

-- The functions of the crates in use: AES-128-GCM and ChaCha20-Poly1305 by key, nonce, message and
-- associated data, where none is an error; one block of AES-128 by its key; the `i`-th pair of bytes
-- of SHAKE128 as a number, by the seed; HMAC-SHA256 by key and message.
pub record Crates : Type 0 where
  pub aes_encrypt : Bytes → Bytes → Bytes → Bytes → Option Bytes
  pub aes_decrypt : Bytes → Bytes → Bytes → Bytes → Option Bytes
  pub chacha_encrypt : Bytes → Bytes → Bytes → Option Bytes
  pub chacha_decrypt : Bytes → Bytes → Bytes → Option Bytes
  pub aes_block_decrypt : Bytes → Bytes → Bytes
  pub shake128 : Bytes → ℕ → ℕ
  pub hmac_sha256 : Bytes → Bytes → Bytes
  pub sha256 : Bytes → Bytes
  pub md5 : Bytes → Bytes
  pub crc32 : Bytes → ℕ

abbrev pub xor_all : ℕ → Bytes → Bytes
xor_all k [] = []
xor_all k (b ∷ bs) = bit_xor b k ∷ xor_all k bs

-- A salt in a block of 64 bytes.
abbrev pub salt_padded : Bytes → Bytes
salt_padded salt = take 64 (salt ++ replicate 64 0)

module _ (c : Crates) where
  -- One step of the loop of `vmess_kdf`: HMAC over the function of the step before.
  unfoldable pub kdf_next : Bytes → (Bytes → Bytes) → Bytes → Bytes
  kdf_next salt prev msg =
      prev (xor_all 0x5c (salt_padded salt) ++ prev (xor_all 0x36 (salt_padded salt) ++ msg))

  unfoldable pub kdf_fold : (Bytes → Bytes) → List Bytes → Bytes → Bytes
  kdf_fold f [] = f
  kdf_fold f (salt ∷ path) = kdf_fold (kdf_next salt f) path

  unfoldable pub vmess_kdf : Bytes → List Bytes → Bytes
  vmess_kdf key path = kdf_fold (c.hmac_sha256 kdf_root) path key

  abbrev pub kdf16 : Bytes → List Bytes → Bytes
  kdf16 key path = take 16 (vmess_kdf key path)

  abbrev pub kdf12 : Bytes → List Bytes → Bytes
  kdf12 key path = take 12 (vmess_kdf key path)

  abbrev pub sha256_16 : Bytes → Bytes
  sha256_16 b = take 16 (c.sha256 b)

  -- `chacha_key`: MD5 of the key, and MD5 of that.
  abbrev pub chacha_key : Bytes → Bytes
  chacha_key key = c.md5 key ++ c.md5 (c.md5 key)

  abbrev pub vmess_cmd_key : Bytes → Bytes
  vmess_cmd_key uuid = take 16 (c.md5 (uuid ++ cmd_key_salt))

  abbrev pub aead_open : Bytes → Bytes → Bytes → Bytes → Result Bytes
  aead_open ct key nonce aad = or_fault aead_decrypt_failed (c.aes_decrypt key nonce ct aad)

  abbrev pub aead_seal : Bytes → Bytes → Bytes → Bytes → Result Bytes
  aead_seal pt key nonce aad = or_fault aead_encrypt_failed (c.aes_encrypt key nonce pt aad)

-- `chunk_nonce`: the count and ten bytes of the initial vector.
abbrev pub chunk_nonce : Bytes → ℕ → Bytes
chunk_nonce iv count = u16_bytes count ++ take 10 (drop 2 iv)

-- `fnv1a32`
unfoldable pub fnv1a32_from : ℕ → Bytes → ℕ
fnv1a32_from h [] = h
fnv1a32_from h (b ∷ bs) = fnv1a32_from (bit_xor h b * 16777619 % 2 ^ 32) bs

abbrev pub fnv1a32 : Bytes → ℕ
fnv1a32 = fnv1a32_from 2166136261

-- `Shake128Reader`: the seed, and how many numbers were taken.
pub record Shake128Reader : Type 0 where
  pub seed : Bytes
  pub taken : ℕ

abbrev pub next_u16 : Crates → Shake128Reader → ℕ × Shake128Reader
next_u16 c sk = (c.shake128 sk.seed sk.taken, record sk { taken = sk.taken + 1 })
