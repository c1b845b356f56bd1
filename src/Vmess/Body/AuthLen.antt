-- ===== src/Vmess/Body/AuthLen.antt =====
-- Encrypted size fields in src/vmess/mod.rs: the two loops count their nonces in opposite orders.
use ruproxy.Vmess.Body.Relay.{IsRead}
use ruproxy.Io.{err, aead_decrypt_failed, ok, read_exact-append, Fault}
use ruproxy.Vmess.Crypto.Salts.{auth_len_salt}
use ruproxy.Vmess.Body.Chunk.{is_known, seal_chunk-IsSealed}
use ruproxy.Bytes.{Bytes, u16_bytes}
use ruproxy.Vmess.Crypto.Laws.{Documented, length-kdf16, length-chunk_nonce}
use ruproxy.Vmess.Body.{
  relay_up, relay_down, down_chunk, next_pad, down_chunks, up_chunks, up_chunk, new_link, Link,
  size_field, read_size, has_flag, opt_global_padding, opt_auth_len, opt_chunk_stream, chunk_size,
  fill_bytes, sec_none,
}
use ruproxy.Vmess.Crypto.{Crates, kdf16, chunk_nonce}
use ruproxy.Prelude.{
  ℕ, ◌+◌, ◌%◌, ◌^◌, ◌≤◌, ◌≡◌, refl, sym, ap, ◌∙◌, true, false, not, ◌&&◌, Option, none, some, List,
  [], ◌∷◌, ◌++◌, ◌==◌, length, arith, All, inl, inr, append_assoc, append-nil, Bool-cases,
  Option-cases, ne→==,
}

-- A size that was sealed under the nonce of count 1 is not accepted under that of count 0.
pub record Rejects (c : Crates) (key iv : Bytes) : Type 0 where
  pub rejects :
      (total : ℕ) (ct : Bytes)
      → c.aes_encrypt (kdf16 c key (auth_len_salt ∷ [])) (chunk_nonce iv 1) (u16_bytes total) []
        ≡ some ct
      → c.aes_decrypt (kdf16 c key (auth_len_salt ∷ [])) (chunk_nonce iv 0) ct [] ≡ none

module _ (c : Crates) (laws : Documented c) (key iv : Bytes) (opt sec : ℕ) where
  next_pad-count : (l : Link) → (next_pad c key iv opt sec l).1.count ≡ l.count
  unfolding next_pad
  next_pad-count l = elim (Bool-cases (has_flag opt opt_global_padding)) [
    | inl padded ↦ elim (Option-cases l.shake) [
      | inl none_there ↦ rw padded (rw (none_there, next_pad) refl)
      | inr (sk, there) ↦ rw padded (rw (there, next_pad) refl)
    ]
    | inr plain ↦ rw plain refl
  ]

  -- The first chunk of `relay_down` starts with a size field that `relay_up` cannot open.
  abbrev Refused : Bytes → Type 0
  Refused out =
      (rest : Bytes)
      → up_chunk c key iv opt sec (new_link c key iv opt sec) (out ++ rest)
        ≡ err aead_decrypt_failed

  first_chunk :
      (random : ℕ → ℕ) (plain : Bytes)
      → Rejects c key iv
      → is_known sec ≡ true
      → length key ≡ 16
      → length iv ≡ 16
      → has_flag opt opt_auth_len ≡ true
      → length plain ≤ chunk_size
      → (out : Bytes) × (l' : Link) × (down_chunk c key iv opt sec random plain
            (new_link c key iv opt sec)
          ≡ ok (out, l'))
        × Refused out
  unfolding down_chunk up_chunk size_field read_size
  first_chunk random plain rejecting known k i flag small =
      let p = next_pad c key iv opt sec (new_link c key iv opt sec) in
      let zero_count : p.1.count ≡ 0 = next_pad-count (new_link c key iv opt sec) in
      let (ct, (seal, size_ct, zero_ct, opened)) =
        seal_chunk-IsSealed c laws key iv opt sec plain 0 known k i (omega arith) in
      let total = (length ct + p.0) % 2 ^ 16 in
      let (field, enc, size, dec) =
        laws.aes (kdf16 c key (auth_len_salt ∷ [])) (chunk_nonce iv 1) (u16_bytes total) []
          (length-kdf16 c laws key (auth_len_salt ∷ [])) (length-chunk_nonce iv 1 i)
          (omega arith) in
      let pad = fill_bytes random p.0 in
      (
        field ++ (ct ++ pad),
        record { shake = p.1.shake; count = 2 },
        rw (zero_count, seal) (rw flag (rw enc refl)),
        λ rest.
            rw (append_assoc field (ct ++ pad) rest, flag)
              (rw (read_exact-append 18 field ((ct ++ pad) ++ rest) (omega arith))
                (rw zero_count (rw (rejecting.rejects total field enc) refl))),
      )

  -- So does all that `relay_down` writes.
  first_field :
      (random : ℕ → ℕ → ℕ) (reads : List Bytes)
      → Rejects c key iv
      → is_known sec ≡ true
      → length key ≡ 16
      → length iv ≡ 16
      → has_flag opt opt_auth_len ≡ true
      → All IsRead reads
      → (out rest : Bytes) × ((down_chunks c key iv opt sec random reads
            (new_link c key iv opt sec)).0
          ≡ out ++ rest)
        × Refused out
  unfolding down_chunks
  first_field random [] rejecting known k i flag h =
      let (out, l', wrote, bad) =
        first_chunk (random 0) [] rejecting known k i flag (omega arith) in
      (out, [], rw (wrote, down_chunks) (sym (append-nil out)), bad)
  first_field random (d ∷ reads) rejecting known k i flag h =
      let (out, l', wrote, bad) =
        first_chunk (random (length reads + 1)) d rejecting known k i flag h.0.1 in
      let rest = (down_chunks c key iv opt sec random reads l').0 in
      (
        out,
        rest,
        rw (wrote, down_chunks) (rw (ne→== (length d) 0 (omega (arith, h.0.0))) refl),
        bad,
      )

  refused :
      (s out rest : Bytes)
      → s ≡ out ++ rest
      → Refused out
      → has_flag opt opt_chunk_stream ≡ true
      → relay_up c key iv opt sec s ≡ ([], some aead_decrypt_failed)
  unfolding relay_up up_chunks
  refused s out rest same bad chunked =
      let off : (sec == sec_none && not (has_flag opt opt_chunk_stream)) ≡ false =
        ground (arith, chunked) in
      rw (off, same) (rw (bad rest, up_chunks) refl)

  in_chunks :
      (random : ℕ → ℕ → ℕ) (reads : List Bytes)
      → has_flag opt opt_chunk_stream ≡ true
      → relay_down c key iv opt sec random reads
        ≡ down_chunks c key iv opt sec random reads (new_link c key iv opt sec)
  unfolding relay_down
  in_chunks random reads chunked =
      let off : (sec == sec_none && not (has_flag opt opt_chunk_stream)) ≡ false =
        ground (arith, chunked) in
      rw off refl

-- With encrypted lengths in a chunk stream, `relay_up` never reads what `relay_down` wrote, not
-- even an empty stream: it fails at the first length and relays nothing; a length that was sealed
-- under the nonce of count 1 must not open under that of count 0, the key and the initial vector
-- have 16 bytes, the security is known, no read is empty or above 8192 bytes, and the crates do
-- what is documented of them.
pub relay_up-auth_len :
    (c : Crates) (key iv : Bytes) (opt sec : ℕ) (random : ℕ → ℕ → ℕ) (reads : List Bytes)
    → Documented c
    → Rejects c key iv
    → is_known sec ≡ true
    → length key ≡ 16
    → length iv ≡ 16
    → has_flag opt opt_auth_len ≡ true
    → has_flag opt opt_chunk_stream ≡ true
    → All IsRead reads
    → relay_up c key iv opt sec (relay_down c key iv opt sec random reads).0
      ≡ ([], some aead_decrypt_failed)
relay_up-auth_len c key iv opt sec random reads laws rejecting known k i flag chunked h =
    let (out, rest, starts, bad) =
      first_field c laws key iv opt sec random reads rejecting known k i flag h in
    let same =
      ap (λ (r : Bytes × Option Fault). r.0)
        (in_chunks c laws key iv opt sec random reads chunked) in
    refused c laws key iv opt sec (relay_down c key iv opt sec random reads).0 out rest
      (same ∙ starts) bad chunked
