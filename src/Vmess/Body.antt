-- ===== src/Vmess/Body.antt =====
-- The chunks of src/vmess/mod.rs: `relay_up` reads them, `relay_down` writes them.
pub mod Chunk
pub mod Relay
pub mod AuthLen
use ruproxy.Vmess.Header.{index}
use ruproxy.Vmess.Crypto.Salts.{auth_len_salt}
use ruproxy.Vmess.Crypto.{
  Crates, Shake128Reader, kdf16, next_u16, aead_seal, chunk_nonce, aead_open, chacha_key,
}
use ruproxy.Bytes.{Bytes, u16_bytes, be16}
use ruproxy.Prelude.{
  ℕ, zero, suc, ◌+◌, ◌-◌, ◌*◌, ◌/◌, ◌%◌, ◌^◌, ◌≤◌, ◌<◌, ◌≡◌, ◌≢◌, refl, sym, ap, ap₂, ◌∙◌, subst,
  Bool, true, false, not, ◌&&◌, ◌||◌, Option, none, some, List, [], ◌∷◌, ◌++◌, ◌==◌, ltb, leb,
  length, take, drop, get_or, if◌then◌else◌, arith, All, ◌⊎◌, inl, inr, min, max, bit_and, bit_or,
  bit_xor, ◌↔◌, append_assoc, append-nil, length-append, Bool-cases,
}
use ruproxy.Io.{
  ◌>>=◌, ◌>>◌, Result, Fault, Reader, ok, err, read_exact, done, and_then, lift, guard,
  chunk_too_small, or_fault, aead_encrypt_failed, aead_decrypt_failed, read_u16, bail,
  unsupported_security,
}

abbrev pub sec_none : ℕ
sec_none = 0x00

abbrev pub sec_aes128_gcm : ℕ
sec_aes128_gcm = 0x03

abbrev pub sec_chacha20 : ℕ
sec_chacha20 = 0x04

abbrev pub sec_auto : ℕ
sec_auto = 0x05

abbrev pub chunk_size : ℕ
chunk_size = 8192

-- `opt & flag != 0`, for OPT_CHUNK_STREAM, OPT_CHUNK_MASKING, OPT_GLOBAL_PADDING and OPT_AUTH_LEN.
abbrev pub has_flag : ℕ → ℕ → Bool
has_flag opt flag = not (bit_and opt flag == 0)

abbrev pub opt_chunk_stream : ℕ
opt_chunk_stream = 0x01

abbrev pub opt_chunk_masking : ℕ
opt_chunk_masking = 0x04

abbrev pub opt_global_padding : ℕ
opt_global_padding = 0x08

abbrev pub opt_auth_len : ℕ
opt_auth_len = 0x10

-- The variables of the loops that change: `shake` and `count`.
pub record Link : Type 0 where
  pub shake : Option Shake128Reader
  pub count : ℕ

-- `wrapping_add` on the count.
abbrev pub counted : Link → Link
counted l = record l { count = (l.count + 1) % 2 ^ 16 }

-- `n` random bytes.
abbrev pub fill_bytes : (ℕ → ℕ) → ℕ → Bytes
fill_bytes random zero = []
fill_bytes random (suc n) = random n ∷ fill_bytes random n

-- What a copy gives.
abbrev pub copy_all : List Bytes → Bytes
copy_all [] = []
copy_all (d ∷ ds) = d ++ copy_all ds

module _ (c : Crates) (key iv : Bytes) (opt sec : ℕ) where
  abbrev pub new_link : Link
  new_link = record {
    shake = if has_flag opt opt_chunk_masking then some (record { seed = iv; taken = 0 }) else none;
    count = 0;
  }

  abbrev pub auth_len_key : Bytes
  auth_len_key = kdf16 c key (auth_len_salt ∷ [])

  -- Step 1: the length of the padding.
  unfoldable pub next_pad : Link → ℕ × Link
  next_pad l =
      if has_flag opt opt_global_padding
      then elim l.shake [
        | none ↦ (0, l)
        | some sk ↦ ((next_u16 c sk).0 % 64, record l { shake = some (next_u16 c sk).1 })
      ]
      else (0, l)

  -- Step 2 of `relay_up`: the size field.
  unfoldable pub read_size : Link → Reader (ℕ × Link)
  read_size l =
      if has_flag opt opt_auth_len
      then (do
        buf ← read_exact 18
        plain ← lift (aead_open c buf auth_len_key (chunk_nonce iv l.count) [])
        hi ← lift (index plain 0)
        lo ← lift (index plain 1)
        done (be16 hi lo, counted l))
      else (do
        raw ← read_u16
        done (elim l.shake [
          | none ↦ (raw, l)
          | some sk ↦ (bit_xor raw (next_u16 c sk).0, record l { shake = some (next_u16 c sk).1 })
        ]))

  -- Step 3 of `relay_up`: the ciphertext of `n` bytes, opened.
  unfoldable pub read_sealed : ℕ → ℕ → Reader Bytes
  read_sealed n count =
      if sec == sec_none
      then read_exact n
      else if sec == sec_aes128_gcm || sec == sec_auto
      then (do
        guard (leb 16 n) chunk_too_small
        ct ← read_exact n
        lift (aead_open c ct key (chunk_nonce iv count) []))
      else if sec == sec_chacha20
      then (do
        guard (leb 16 n) chunk_too_small
        ct ← read_exact n
        lift (
            or_fault aead_decrypt_failed
              (c.chacha_decrypt (chacha_key c key) (chunk_nonce iv count) ct)))
      else bail unsupported_security

  -- One round of the loop of `relay_up`: none is the end at an empty chunk.
  unfoldable pub up_body : ℕ → ℕ → Link → Reader (Option Bytes × Link)
  up_body pad_len encrypted_len l = if encrypted_len == 0 then done (none, l) else (do
    plain ← read_sealed encrypted_len l.count
    padding ← read_exact pad_len
    done ((if length plain == 0 then none else some plain), counted l))

  unfoldable pub up_chunk : Link → Reader (Option Bytes × Link)
  up_chunk l = let p = next_pad l in do size ← read_size p.1; up_body p.0 (size.0 - p.0) size.1

  -- The loop of `relay_up`: what is written, and the error that ends it.
  unfoldable pub up_chunks : ℕ → Link → Bytes → Bytes × Option Fault
  up_chunks zero l s = ([], none)
  up_chunks (suc fuel) l s = elim (up_chunk l s) [
    | err e ↦ ([], some e)
    | ok ((none, l'), s') ↦ ([], none)
    | ok ((some plain, l'), s') ↦ let rest = up_chunks fuel l' s' in (plain ++ rest.0, rest.1)
  ]

  -- Each round reads two bytes of the stream at least.
  unfoldable pub relay_up : Bytes → Bytes × Option Fault
  relay_up s =
      if sec == sec_none && not (has_flag opt opt_chunk_stream)
      then (s, none)
      else up_chunks (suc (length s)) new_link s

  -- Step 2 of `relay_down`.
  unfoldable pub seal_chunk : Bytes → ℕ → Result Bytes
  seal_chunk plain count =
      if sec == sec_none
      then ok plain
      else if sec == sec_aes128_gcm || sec == sec_auto
      then aead_seal c plain key (chunk_nonce iv count) []
      else if sec == sec_chacha20
      then or_fault aead_encrypt_failed
          (c.chacha_encrypt (chacha_key c key) (chunk_nonce iv count) plain)
      else err unsupported_security

  -- Step 3 of `relay_down`: the size field.
  unfoldable pub size_field : ℕ → Link → Result (Bytes × Link)
  size_field total_size l =
      if has_flag opt opt_auth_len
      then and_then (aead_seal c (u16_bytes total_size) auth_len_key (chunk_nonce iv l.count) [])
          (λ enc_len. ok (enc_len, counted l))
      else ok (elim l.shake [
        | none ↦ (u16_bytes total_size, l)
        | some sk ↦ (
          u16_bytes (bit_xor total_size (next_u16 c sk).0),
          record l { shake = some (next_u16 c sk).1 },
        )
      ])

  -- One round of the loop of `relay_down`: what is written for `plain`.
  unfoldable pub down_chunk : (ℕ → ℕ) → Bytes → Link → Result (Bytes × Link)
  down_chunk random plain l =
      let p = next_pad l in
      and_then (seal_chunk plain p.1.count) (λ ct.
        and_then (size_field ((length ct + p.0) % 2 ^ 16) (counted p.1))
          (λ f. ok (f.0 ++ (ct ++ fill_bytes random p.0), f.1)))

  -- The loop of `relay_down`, by what each read from the target returns: at the end, or where it
  -- returns nothing, an empty chunk is written last. `random` gives the bytes of each padding.
  unfoldable pub down_chunks : (ℕ → ℕ → ℕ) → List Bytes → Link → Bytes × Option Fault
  down_chunks random [] l = elim (down_chunk (random 0) [] l) [
    | err e ↦ ([], some e)
    | ok (out, l') ↦ (out, none)
  ]
  down_chunks random (plain ∷ reads) l = elim (down_chunk (random (length reads + 1)) plain l) [
    | err e ↦ ([], some e)
    | ok (out, l') ↦
        let rest = down_chunks random reads l' in
        if length plain == 0 then (out, none) else (out ++ rest.0, rest.1)
  ]

  unfoldable pub relay_down : (ℕ → ℕ → ℕ) → List Bytes → Bytes × Option Fault
  relay_down random reads =
      if sec == sec_none && not (has_flag opt opt_chunk_stream)
      then (copy_all reads, none)
      else down_chunks random reads new_link
