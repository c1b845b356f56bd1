-- ===== src/Hysteria2/Varint.antt =====
-- The variable-length integers of src/hysteria2: `write_varint` (auth.rs), `write_varint_bytes`
-- (proxy.rs), the stream readers `read_varint` of auth.rs and server.rs, and `read_varint_bytes` of
-- proxy.rs, which reads from a datagram.
pub mod RoundTrip
pub mod Datagram
use ruproxy.Prelude.{
  ℕ, zero, suc, ◌+◌, ◌-◌, ◌*◌, ◌/◌, ◌%◌, ◌^◌, [], ◌∷◌, bit_or, bit_and, ltb, if◌then◌else◌,
}
use ruproxy.Bytes.{Bytes, u16_bytes, u32_bytes, u64_bytes}
use ruproxy.Io.{Result, err, Reader, step, ◌>>=◌, done, read_u8, varint_no_data, varint_truncated}

-- `put_u8`, `put_u16`, `put_u32` or `put_u64`, with the length in the two top bits. The bodies of
-- `write_varint` and `write_varint_bytes` are the same.
unfoldable pub write_varint : ℕ → Bytes
write_varint val =
    if ltb val 64
    then (val % 256) ∷ []
    else if ltb val 16384
    then u16_bytes (bit_or 0x4000 (val % 2 ^ 16))
    else if ltb val 1_073_741_824
    then u32_bytes (bit_or 0x8000_0000 (val % 2 ^ 32))
    else u64_bytes (bit_or 0xc000_0000_0000_0000 val)

-- `val = (val << 8) | byte`, on u64.
abbrev pub shift_in : ℕ → ℕ → ℕ
shift_in val byte = bit_or (val * 2 ^ 8 % 2 ^ 64) byte

-- The loop of `read_varint`, over the bytes that are still to come.
unfoldable pub read_more : ℕ → ℕ → Reader ℕ
read_more zero val = done val
read_more (suc n) val = do b ← read_u8; read_more n (shift_in val b)

-- `read_varint` of auth.rs and of server.rs: `1 << (first >> 6)` bytes in all.
unfoldable pub read_varint : Reader ℕ
read_varint = do first ← read_u8; read_more (2 ^ (first / 2 ^ 6) - 1) (bit_and first 0x3f)

-- The loop of `read_varint_bytes`.
unfoldable pub read_extra : ℕ → ℕ → Reader ℕ
read_extra zero val s = done val s
read_extra (suc n) val [] = err varint_truncated
read_extra (suc n) val (b ∷ s) = read_extra n (shift_in val b) s

-- `read_varint_bytes`: the count of the further bytes is `first >> 6` itself.
unfoldable pub read_varint_bytes : Reader ℕ
read_varint_bytes [] = err varint_no_data
read_varint_bytes (first ∷ s) = read_extra (first / 2 ^ 6) (bit_and first 0x3f) s
