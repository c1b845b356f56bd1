-- ===== src/Hysteria2/Varint/RoundTrip.antt =====
-- What the variable-length readers make of the bytes that `write_varint` writes.
use ruproxy.Bits.{bit_or_disjoint, bit_and_0x3f}
use ruproxy.Prelude.{
  ℕ, suc, ◌+◌, ◌*◌, ◌/◌, ◌%◌, ◌^◌, ◌≤◌, ◌<◌, ◌≡◌, refl, [], ◌∷◌, ◌++◌, length, arith, ltb, le→ltb,
  ◌-◌, ap, lt→ltb, ◌∙◌, get_or, Bool-cases, drop, inl, ltb→lt, inr, ltb_false→le,
}
use ruproxy.Bytes.{Bytes, be_onto, u16_bytes, u32_bytes, u64_bytes}
use ruproxy.Io.{ok, read_u8}
use ruproxy.Hysteria2.Varint.{write_varint, shift_in, read_more, read_varint, read_extra}

pub shift_in_lem : (v b : ℕ) → v < 2 ^ 56 → b < 256 → shift_in v b ≡ v * 256 + b
shift_in_lem v b h k =
    let fits : v * 2 ^ 8 % 2 ^ 64 ≡ v * 2 ^ 8 = omega arith in rw fits (bit_or_disjoint 8 v b k)

-- No byte that is shifted in overflows the u64.
abbrev pub Fits : ℕ → Bytes → Type 0
Fits val [] = Unit
Fits val (b ∷ bs) = (b < 256) × (val < 2 ^ 56) × Fits (val * 256 + b) bs

read_more-be_onto :
    (bs rest : Bytes) (val : ℕ)
    → Fits val bs
    → read_more (length bs) val (bs ++ rest) ≡ ok (be_onto val bs, rest)
unfolding read_more read_u8
read_more-be_onto [] rest val h = refl
read_more-be_onto (b ∷ bs) rest val h =
    rw (shift_in_lem val b h.1 h.0) (read_more-be_onto bs rest (val * 256 + b) h.2)

pub read_extra-be_onto :
    (bs rest : Bytes) (val : ℕ)
    → Fits val bs
    → read_extra (length bs) val (bs ++ rest) ≡ ok (be_onto val bs, rest)
unfolding read_extra
read_extra-be_onto [] rest val h = refl
read_extra-be_onto (b ∷ bs) rest val h =
    rw (shift_in_lem val b h.1 h.0) (read_extra-be_onto bs rest (val * 256 + b) h.2)

pub write_one : (v : ℕ) → v < 64 → write_varint v ≡ v ∷ []
unfolding write_varint
write_one v h = ground arith

pub write_two : (v : ℕ) → 64 ≤ v → v < 2 ^ 14 → write_varint v ≡ u16_bytes (2 ^ 14 + v)
unfolding write_varint
write_two v h k =
    let fits : v % 2 ^ 16 ≡ v = omega arith in
    rw (le→ltb v 64 h, lt→ltb v 16384 k, fits) (ap u16_bytes (bit_or_disjoint 14 1 v k))

pub write_four : (v : ℕ) → 2 ^ 14 ≤ v → v < 2 ^ 30 → write_varint v ≡ u32_bytes (2 * 2 ^ 30 + v)
unfolding write_varint
write_four v h k =
    let fits : v % 2 ^ 32 ≡ v = omega arith in
    rw (le→ltb v 64 (omega arith), le→ltb v 16384 h, lt→ltb v 1_073_741_824 k, fits)
      (ap u32_bytes (bit_or_disjoint 30 2 v k))

pub write_eight : (v : ℕ) → 2 ^ 30 ≤ v → v < 2 ^ 62 → write_varint v ≡ u64_bytes (3 * 2 ^ 62 + v)
unfolding write_varint
write_eight v h k =
    rw (le→ltb v 64 (omega arith), le→ltb v 16384 (omega arith), le→ltb v 1_073_741_824 h)
      (ap u64_bytes (bit_or_disjoint 62 3 v k))

-- The first byte `f` holds the length in its two top bits.
read_varint_first :
    (f : ℕ) (bs rest : Bytes) (v : ℕ)
    → f < 256
    → 2 ^ (f / 64) ≡ suc (length bs)
    → Fits (f % 64) bs
    → be_onto (f % 64) bs ≡ v
    → read_varint (f ∷ (bs ++ rest)) ≡ ok (v, rest)
unfolding read_varint read_u8
read_varint_first f bs rest v h e fits total =
    let more : 2 ^ (f / 2 ^ 6) - 1 ≡ length bs = omega (arith, e) in
    rw (more, bit_and_0x3f f h, ← total) (read_more-be_onto bs rest (f % 64) fits)

-- The two top bits of the first byte are `k`.
tagged : (f k n : ℕ) → f / 64 ≡ k → 2 ^ k ≡ n → 2 ^ (f / 64) ≡ n
tagged f k n e h = ap (λ (t : ℕ). 2 ^ t) e ∙ h

module _ (v : ℕ) (rest : Bytes) where
  read_two : v < 2 ^ 14 → read_varint (u16_bytes (2 ^ 14 + v) ++ rest) ≡ ok (v, rest)
  read_two h =
      let bytes = u16_bytes (2 ^ 14 + v) in
      let f = get_or bytes 0 0 in
      read_varint_first f (drop 1 bytes) rest v (omega arith) (tagged f 1 2 (omega arith) refl)
        (omega arith) (omega arith)

  read_four : v < 2 ^ 30 → read_varint (u32_bytes (2 * 2 ^ 30 + v) ++ rest) ≡ ok (v, rest)
  read_four h =
      let bytes = u32_bytes (2 * 2 ^ 30 + v) in
      let f = get_or bytes 0 0 in
      read_varint_first f (drop 1 bytes) rest v (omega arith) (tagged f 2 4 (omega arith) refl)
        (omega arith) (omega arith)

  read_eight : v < 2 ^ 62 → read_varint (u64_bytes (3 * 2 ^ 62 + v) ++ rest) ≡ ok (v, rest)
  read_eight h =
      let bytes = u64_bytes (3 * 2 ^ 62 + v) in
      let f = get_or bytes 0 0 in
      read_varint_first f (drop 1 bytes) rest v (omega arith) (tagged f 3 8 (omega arith) refl)
        (omega arith) (omega arith)

-- `read_varint` reads back every integer below 2^62 that `write_varint` wrote, and leaves the
-- bytes that follow it.
pub read_varint-write_varint :
    (v : ℕ) (rest : Bytes) → v < 2 ^ 62 → read_varint (write_varint v ++ rest) ≡ ok (v, rest)
read_varint-write_varint v rest h = elim (Bool-cases (ltb v 64)) [
  | inl one ↦ rw (write_one v (ltb→lt v 64 one)) (
      read_varint_first v [] rest v (omega (arith, ltb→lt v 64 one))
        (tagged v 0 1 (omega (arith, ltb→lt v 64 one)) refl) tt (omega (arith, ltb→lt v 64 one)))
  | inr not_one ↦ elim (Bool-cases (ltb v (2 ^ 14))) [
    | inl two ↦
        rw (write_two v (ltb_false→le v 64 not_one) (ltb→lt v (2 ^ 14) two))
          (read_two v rest (ltb→lt v (2 ^ 14) two))
    | inr not_two ↦ elim (Bool-cases (ltb v (2 ^ 30))) [
      | inl four ↦
          rw (write_four v (ltb_false→le v (2 ^ 14) not_two) (ltb→lt v (2 ^ 30) four))
            (read_four v rest (ltb→lt v (2 ^ 30) four))
      | inr not_four ↦ rw (write_eight v (ltb_false→le v (2 ^ 30) not_four) h) (read_eight v rest h)
    ]
  ]
]
