-- ===== src/Shadowsocks/Stream.antt =====
-- `AeadReader` and `AeadWriter` of src/shadowsocks/protocol.rs. The ciphers are third-party: `Aead`
-- stands for `aead_encrypt` and `aead_decrypt` with the configured cipher.
pub mod RoundTrip
use ruproxy.Bytes.{Bytes, u16_bytes, be16}
use ruproxy.Io.{
  Fault, Result, and_then, ok, step, err, read_exact, aead_encrypt_failed, aead_decrypt_failed,
  or_fault,
}
use ruproxy.Prelude.{
  ℕ, zero, suc, ◌+◌, ◌-◌, ◌*◌, ◌/◌, ◌%◌, ◌^◌, ◌≤◌, ◌<◌, ◌≡◌, ◌≢◌, refl, sym, ap, ap₂, ◌∙◌, subst,
  Bool, true, false, not, ◌&&◌, ◌||◌, Option, none, some, List, [], ◌∷◌, ◌++◌, ◌==◌, ltb, leb,
  length, take, drop, get_or, if◌then◌else◌, arith, All, ◌⊎◌, inl, inr, min, max, bit_and, bit_or,
  bit_xor, ◌↔◌, append_assoc, append-nil, length-append, Bool-cases, replicate,
}
use ruproxy.Shadowsocks.Nonce.{increment_nonce}

abbrev pub tag_len : ℕ
tag_len = 16

abbrev pub max_chunk : ℕ
max_chunk = 0x3fff

-- By the key and the nonce; none is an error of the cipher.
pub record Aead : Type 0 where
  pub encrypt : Bytes → Bytes → Bytes → Option Bytes
  pub decrypt : Bytes → Bytes → Bytes → Option Bytes

-- `AeadReader`: `inner` is what the peer still sends.
pub record AeadReader : Type 0 where
  pub inner : Bytes
  pub subkey : Bytes
  pub nonce : Bytes
  pub buf : Bytes

pub record AeadWriter : Type 0 where
  pub inner : Bytes
  pub subkey : Bytes
  pub nonce : Bytes

-- `AeadReader::new` and `AeadWriter::new`
abbrev pub new_reader : Bytes → Bytes → AeadReader
new_reader inner subkey = record {
  inner = inner;
  subkey = subkey;
  nonce = replicate 12 0;
  buf = [];
}

abbrev pub new_writer : Bytes → Bytes → AeadWriter
new_writer inner subkey = record { inner = inner; subkey = subkey; nonce = replicate 12 0 }

abbrev pub write_raw : Bytes → AeadWriter → AeadWriter
write_raw data' w = record w { inner = w.inner ++ data' }

abbrev pub reset_subkey : Bytes → AeadWriter → AeadWriter
reset_subkey new_subkey w = record w { subkey = new_subkey; nonce = replicate 12 0 }

module _ (aead : Aead) where
  -- One part of a chunk: `n` bytes of ciphertext from the stream.
  unfoldable pub read_part : ℕ → AeadReader → Result (Bytes × AeadReader)
  read_part n r = and_then (read_exact n r.inner) λ p.
      and_then (or_fault aead_decrypt_failed (aead.decrypt r.subkey r.nonce p.0))
        λ pt. ok (pt, record r { inner = p.1; nonce = increment_nonce r.nonce })

  -- `read_header_chunk`, and the part of `fill_buf` behind its test for the end of the stream.
  unfoldable pub read_header_chunk : AeadReader → Result (Bytes × AeadReader)
  read_header_chunk r =
      and_then (read_part (2 + tag_len) r)
        λ l. read_part (be16 (get_or l.0 0 0) (get_or l.0 1 0) + tag_len) l.1

  -- `fill_buf`: false at the end of the stream, also where it ends within a length.
  unfoldable pub fill_buf : AeadReader → Result (Bool × AeadReader)
  fill_buf r =
      if ltb (length r.inner) (2 + tag_len)
      then ok (false, record r { inner = [] })
      else and_then (read_header_chunk r) λ c. ok (true, record c.1 { buf = c.1.buf ++ c.0 })

  -- `read_plain` into a buffer of `n` bytes: what was read.
  unfoldable pub read_plain : ℕ → AeadReader → Result (Bytes × AeadReader)
  read_plain n r =
      let served : AeadReader → Bytes × AeadReader =
        λ (s : AeadReader). (take n s.buf, record s { buf = drop n s.buf }) in
      if length r.buf == 0
      then and_then (fill_buf r) (λ f. if f.0 then ok (served f.1) else ok ([], f.1))
      else ok (served r)

  -- One part of a chunk: the ciphertext goes out, and the nonce is counted up.
  unfoldable pub write_part : Bytes → AeadWriter → Result AeadWriter
  write_part pt w =
      and_then (or_fault aead_encrypt_failed (aead.encrypt w.subkey w.nonce pt))
        λ ct. ok (record w { inner = w.inner ++ ct; nonce = increment_nonce w.nonce })

  -- `write_header_chunk`, and the body of the loop of `write_data`: length and data. Both encrypt
  -- the two parts before they write, and nobody uses the writer after an error.
  unfoldable pub write_header_chunk : Bytes → AeadWriter → Result AeadWriter
  write_header_chunk data' w = and_then (write_part (u16_bytes (length data')) w) (write_part data')

  -- `write_data`; at most `fuel` chunks, and one for each byte is enough.
  unfoldable pub write_chunks : ℕ → Bytes → AeadWriter → Result AeadWriter
  write_chunks fuel [] w = ok w
  write_chunks zero (b ∷ data') w = ok w
  write_chunks (suc fuel) (b ∷ data') w =
      and_then (write_header_chunk (take max_chunk (b ∷ data')) w)
        (write_chunks fuel (drop max_chunk (b ∷ data')))

  unfoldable pub write_data : Bytes → AeadWriter → Result AeadWriter
  write_data data' w = write_chunks (length data') data' w

  -- The uplink loop of `process`: `read_plain` with a buffer of `n` bytes until it returns nothing or
  -- fails; what was read before that is relayed, and the error is the second part.
  unfoldable pub read_all : ℕ → ℕ → AeadReader → Bytes × Option Fault
  read_all zero n r = ([], none)
  read_all (suc fuel) n r = elim (read_plain n r) [
    | err e ↦ ([], some e)
    | ok p ↦
        let rest = read_all fuel n p.1 in
        if length p.0 == 0 then ([], none) else (p.0 ++ rest.0, rest.1)
  ]
