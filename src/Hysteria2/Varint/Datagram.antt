-- ===== src/Hysteria2/Varint/Datagram.antt =====
-- `read_varint_bytes`, the reader of datagrams, on what `write_varint` writes: it takes the length
-- code itself for the number of further bytes, which is right for the one-byte and the two-byte form only.
use ruproxy.Bits.{bit_and_0x3f}
use ruproxy.Hysteria2.Varint.RoundTrip.{
  Fits, read_extra-be_onto, write_one, write_two, write_four, write_eight,
}
use ruproxy.Io.{ok}
use ruproxy.Prelude.{
  ◌<◌, drop, ◌^◌, ◌++◌, ◌≤◌, ◌/◌, ◌*◌, ◌+◌, ◌≡◌, ◌%◌, length, arith, Bool-cases, ◌∷◌, inl, ltb→lt,
  inr, ltb_false→le, get_or, if◌then◌else◌, take, ◌∙◌, ap,
}
use ruproxy.Bytes.{be_onto, u16_bytes, u32_bytes, u64_bytes, Bytes}
use ruproxy.Hysteria2.Varint.{read_varint_bytes, write_varint, ℕ, ◌^◌, ltb, []}

read_bytes_first :
    (f : ℕ) (bs rest : Bytes) (v : ℕ)
    → f < 256
    → f / 64 ≡ length bs
    → Fits (f % 64) bs
    → be_onto (f % 64) bs ≡ v
    → read_varint_bytes (f ∷ (bs ++ rest)) ≡ ok (v, rest)
unfolding read_varint_bytes
read_bytes_first f bs rest v h e fits total =
    rw (e, bit_and_0x3f f h, ← total) (read_extra-be_onto bs rest (f % 64) fits)

low_bytes : (v : ℕ) → drop 4 (u64_bytes (3 * 2 ^ 62 + v)) ≡ u32_bytes v
low_bytes v =
    let a : (3 * 2 ^ 62 + v) / 2 ^ 24 % 256 ≡ v / 2 ^ 24 % 256 = omega arith in
    let b : (3 * 2 ^ 62 + v) / 2 ^ 16 % 256 ≡ v / 2 ^ 16 % 256 = omega arith in
    let c : (3 * 2 ^ 62 + v) / 256 % 256 ≡ v / 256 % 256 = omega arith in
    let d : (3 * 2 ^ 62 + v) % 256 ≡ v % 256 = omega arith in cc

-- Below 2^14 the datagram reader reads back what `write_varint` wrote, and leaves what follows.
pub read_varint_bytes-write_varint :
    (v : ℕ) (rest : Bytes) → v < 2 ^ 14 → read_varint_bytes (write_varint v ++ rest) ≡ ok (v, rest)
read_varint_bytes-write_varint v rest h = elim (Bool-cases (ltb v 64)) [
  | inl one ↦ rw (write_one v (ltb→lt v 64 one)) (
      read_bytes_first v [] rest v (omega (arith, ltb→lt v 64 one)) (omega (arith, ltb→lt v 64 one))
        tt (omega (arith, ltb→lt v 64 one)))
  | inr not_one ↦ rw (write_two v (ltb_false→le v 64 not_one) h) (
      let bytes = u16_bytes (2 ^ 14 + v) in
      read_bytes_first (get_or bytes 0 0) (drop 1 bytes) rest v (omega arith) (omega arith)
        (omega arith) (omega arith))
]

-- From 2^14 up to 2^62 the datagram reader stops early: of the four-byte form it leaves the last
-- byte, of the eight-byte form the last four, and it returns the number without them.
pub read_varint_bytes_short :
    (v : ℕ) (rest : Bytes)
    → 2 ^ 14 ≤ v
    → v < 2 ^ 62
    → read_varint_bytes (write_varint v ++ rest) ≡ (
        if ltb v (2 ^ 30)
        then ok (v / 2 ^ 8, (v % 256) ∷ rest)
        else ok (v / 2 ^ 32, u32_bytes v ++ rest))
read_varint_bytes_short v rest h k = elim (Bool-cases (ltb v (2 ^ 30))) [
  | inl four ↦
      let small = ltb→lt v (2 ^ 30) four in
      let bytes = u32_bytes (2 * 2 ^ 30 + v) in
      let last : get_or bytes 3 0 ≡ v % 256 = omega arith in
      rw (write_four v h small, four)
        (read_bytes_first (get_or bytes 0 0) (take 2 (drop 1 bytes)) (drop 3 bytes ++ rest)
            (v / 2 ^ 8) (omega arith) (omega arith) (omega arith) (omega arith)
          ∙ ap (λ x. ok (v / 2 ^ 8, x ∷ rest)) last)
  | inr not_four ↦
      let large = ltb_false→le v (2 ^ 30) not_four in
      let bytes = u64_bytes (3 * 2 ^ 62 + v) in
      rw (write_eight v large k, not_four)
        (read_bytes_first (get_or bytes 0 0) (take 3 (drop 1 bytes)) (drop 4 bytes ++ rest)
            (v / 2 ^ 32) (omega arith) (omega arith) (omega arith) (omega arith)
          ∙ ap (λ x. ok (v / 2 ^ 32, x ++ rest)) (low_bytes v))
]
