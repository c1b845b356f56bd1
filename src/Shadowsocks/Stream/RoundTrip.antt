-- ===== src/Shadowsocks/Stream/RoundTrip.antt =====
-- What `AeadWriter` writes, `AeadReader` reads: header chunks and data of any length.
use ruproxy.Io.{ok, read_exact-append}
use ruproxy.Bytes.{Bytes, u16_bytes, be16}
use ruproxy.Prelude.{
  none, ℕ, zero, suc, ◌+◌, ◌/◌, ◌%◌, ◌^◌, ◌≤◌, ◌<◌, ◌≡◌, refl, sym, ap, ◌∙◌, subst, false, some, [],
  ◌∷◌, ◌++◌, ◌==◌, length, take, drop, arith, append_assoc, append-nil, length-append, length-take,
  length-drop, take-append-drop, ne→==, le→ltb,
}
use ruproxy.Shadowsocks.Stream.{
  Aead, AeadReader, AeadWriter, tag_len, max_chunk, read_part, read_header_chunk, fill_buf,
  read_plain, write_part, write_header_chunk, write_chunks, write_data, read_all,
}
use ruproxy.Shadowsocks.Nonce.{increment_nonce}

-- What the code relies on of a cipher with a key of the right length: it encrypts up to 2^16 bytes,
-- adds a tag, and decrypts under the same nonce.
pub record Seals (aead : Aead) (key : Bytes) : Type 0 where
  pub seal :
      (nonce pt : Bytes)
      → length pt < 2 ^ 16
      → (ct : Bytes) × (aead.encrypt key nonce pt ≡ some ct)
        × (length ct ≡ length pt + tag_len)
        × (aead.decrypt key nonce ct ≡ some pt)

abbrev pub reading : Bytes → Bytes → Bytes → Bytes → AeadReader
reading inner key nonce buf = record { inner = inner; subkey = key; nonce = nonce; buf = buf }

abbrev pub writing : Bytes → Bytes → Bytes → AeadWriter
writing inner key nonce = record { inner = inner; subkey = key; nonce = nonce }

module _ (aead : Aead) (key : Bytes) (laws : Seals aead key) where
  part :
      (nonce pt : Bytes)
      → length pt < 2 ^ 16
      → (ct : Bytes) × (length ct ≡ length pt + tag_len)
        × ((out : Bytes)
            → write_part aead pt (writing out key nonce)
              ≡ ok (writing (out ++ ct) key (increment_nonce nonce)))
        × ((rest buf : Bytes)
            → read_part aead (length pt + tag_len) (reading (ct ++ rest) key nonce buf)
              ≡ ok (pt, reading rest key (increment_nonce nonce) buf))
  unfolding read_part write_part
  part nonce pt h =
      let (ct, enc, len, dec) = laws.seal nonce pt h in
      (
        ct,
        len,
        λ out. rw enc refl,
        λ rest buf. rw (read_exact-append (length pt + tag_len) ct rest len) (rw dec refl),
      )

  chunk :
      (nonce c : Bytes)
      → length c < 2 ^ 16
      → (ct : Bytes) × (2 + tag_len ≤ length ct)
        × ((out : Bytes)
            → write_header_chunk aead c (writing out key nonce)
              ≡ ok (writing (out ++ ct) key (increment_nonce (increment_nonce nonce))))
        × ((rest buf : Bytes)
            → read_header_chunk aead (reading (ct ++ rest) key nonce buf)
              ≡ ok (c, reading rest key (increment_nonce (increment_nonce nonce)) buf))
  unfolding read_header_chunk write_header_chunk
  chunk nonce c h =
      let (l, l_len, l_write, l_read) = part nonce (u16_bytes (length c)) (omega arith) in
      let (d, d_len, d_write, d_read) = part (increment_nonce nonce) c h in
      let size : be16 (length c / 256 % 256) (length c % 256) ≡ length c = omega arith in
      (
        l ++ d,
        omega (arith, length-append l d),
        λ out. rw (l_write out) (rw (d_write (out ++ l)) (rw append_assoc refl)),
        λ rest buf. rw append_assoc (rw (l_read (d ++ rest) buf) (rw size (d_read rest buf))),
      )

  -- The ciphertexts of non-empty chunks, one after the other, and their data.
  data Wire : Bytes → Bytes → Bytes → Type 0 where
    finish : (nonce : Bytes) → Wire nonce [] []
    more :
        (nonce c ct : Bytes) {rest data' : Bytes}
        → 0 < length c
        → 2 + tag_len ≤ length ct
        → ((tail buf : Bytes)
            → read_header_chunk aead (reading (ct ++ tail) key nonce buf)
              ≡ ok (c, reading tail key (increment_nonce (increment_nonce nonce)) buf))
        → Wire (increment_nonce (increment_nonce nonce)) rest data'
        → Wire nonce (ct ++ rest) (c ++ data')

  write_chunks-Wire :
      (fuel : ℕ) (data' nonce out : Bytes)
      → length data' ≤ fuel
      → (ct nonce' : Bytes) × (write_chunks aead fuel data' (writing out key nonce)
          ≡ ok (writing (out ++ ct) key nonce'))
        × Wire nonce ct data'
  unfolding write_chunks
  write_chunks-Wire fuel [] nonce out h = ([], nonce, rw append-nil refl, finish nonce)
  write_chunks-Wire zero (b ∷ data') nonce out h = absurd (omega arith)
  write_chunks-Wire (suc fuel) (b ∷ data') nonce out h =
      let c = take max_chunk (b ∷ data') in
      let rest = drop max_chunk (b ∷ data') in
      let (ct, large, write, read) =
        chunk nonce c (omega (arith, length-take max_chunk (b ∷ data'))) in
      let (cts, nonce', writes, wire) =
        write_chunks-Wire fuel rest (increment_nonce (increment_nonce nonce)) (out ++ ct)
          (omega (arith, length-drop max_chunk (b ∷ data'))) in
      (
        ct ++ cts,
        nonce',
        rw (write out) (rw (writes) (rw append_assoc refl)),
        subst (Wire nonce (ct ++ cts)) (take-append-drop max_chunk (b ∷ data'))
            (more nonce c ct (omega (arith, length-take max_chunk (b ∷ data'))) large read wire),
      )

  -- A full buffer is served, then the rest is read.
  serve :
      (fuel n : ℕ) (r : AeadReader) (ct nonce buf data' : Bytes)
      → 0 < n
      → 0 < length buf
      → read_plain aead n r ≡ ok (take n buf, reading ct key nonce (drop n buf))
      → read_all aead fuel n (reading ct key nonce (drop n buf)) ≡ (drop n buf ++ data', none)
      → read_all aead (suc fuel) n r ≡ (buf ++ data', none)
  unfolding read_all
  serve fuel n r ct nonce buf data' pos full e rest =
      let some_read : (length (take n buf) == 0) ≡ false =
        ne→== (length (take n buf)) 0 (omega (arith, length-take n buf)) in
      let whole : take n buf ++ (drop n buf ++ data') ≡ buf ++ data' =
        sym (append_assoc (take n buf) (drop n buf) data')
        ∙ ap (λ x. x ++ data') (take-append-drop n buf) in
      rw (e, read_all) (rw (some_read, rest) (ap (λ (x : Bytes). (x, none)) whole))

  read_all-Wire :
      (fuel n : ℕ) (nonce ct data' buf : Bytes)
      → 0 < n
      → Wire nonce ct data'
      → length buf + length data' < fuel
      → read_all aead fuel n (reading ct key nonce buf) ≡ (buf ++ data', none)
  unfolding read_plain fill_buf
  read_all-Wire zero n nonce ct data' buf pos wire h = absurd (omega arith)
  read_all-Wire (suc fuel) n nonce ct data' (b ∷ bs) pos wire h =
      serve fuel n (reading ct key nonce (b ∷ bs)) ct nonce (b ∷ bs) data' pos (omega arith)
        (rw (ne→== (suc (length bs)) 0 (omega arith)) refl)
        (read_all-Wire fuel n nonce ct data' (drop n (b ∷ bs)) pos wire
          (omega (arith, length-drop n (b ∷ bs))))
  read_all-Wire (suc fuel) n _ _ _ [] pos (finish nonce) h = unfold read_all in refl
  read_all-Wire (suc fuel) n _ _ _ [] pos
        (more nonce c ct1 {rest = rest} {data' = data2} full large read wire) h =
      let nonce2 = increment_nonce (increment_nonce nonce) in
      serve fuel n (reading (ct1 ++ rest) key nonce []) rest nonce2 c data2 pos full
        (rw (le→ltb (length (ct1 ++ rest)) (2 + tag_len) (omega (arith, length-append ct1 rest)))
          (rw (read rest []) refl))
        (read_all-Wire fuel n nonce2 rest data2 (drop n c) pos wire
          (omega (arith, length-drop n c, length-append c data2)))

-- Whatever the nonce, `write_data` writes data of any length as some ciphertext, and the uplink
-- loop, with a buffer of any size above zero and at that nonce, reads from the ciphertext exactly
-- the data, without an error, in fewer rounds than one more than its length; the cipher must seal
-- under the key.
pub read_all-write_data :
    (aead : Aead) (key nonce out data' : Bytes) (fuel n : ℕ)
    → Seals aead key
    → 0 < n
    → length data' < fuel
    → (ct nonce' : Bytes) × (write_data aead data' (writing out key nonce)
        ≡ ok (writing (out ++ ct) key nonce'))
      × (read_all aead fuel n (reading ct key nonce []) ≡ (data', none))
unfolding write_data
read_all-write_data aead key nonce out data' fuel n laws pos enough =
    let (ct, nonce', write, wire) =
      write_chunks-Wire aead key laws (length data') data' nonce out (omega arith) in
    (ct, nonce', write, read_all-Wire aead key laws fuel n nonce ct data' [] pos wire (omega arith))

-- Whatever the nonce, a header chunk below 2^16 bytes that `write_header_chunk` writes is read
-- back at that nonce by `read_header_chunk`, which leaves what follows it, and both count the
-- nonce up twice; the cipher must seal under the key.
pub read_header_chunk-write_header_chunk :
    (aead : Aead) (key nonce out c rest : Bytes)
    → Seals aead key
    → length c < 2 ^ 16
    → (ct : Bytes) × (write_header_chunk aead c (writing out key nonce)
        ≡ ok (writing (out ++ ct) key (increment_nonce (increment_nonce nonce))))
      × (read_header_chunk aead (reading (ct ++ rest) key nonce [])
          ≡ ok (c, reading rest key (increment_nonce (increment_nonce nonce)) []))
read_header_chunk-write_header_chunk aead key nonce out c rest laws h =
    let (ct, large, write, read) = chunk aead key laws nonce c h in (ct, write out, read rest [])
