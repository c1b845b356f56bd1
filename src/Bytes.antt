-- ===== src/Bytes.antt =====
-- Octets and the big-endian codecs that every wire format of src/ uses: `to_be_bytes`,
-- `from_be_bytes`, `put_u16`, `get_u32` and the like. A byte string is a list of numbers; that each
-- is below 256 is a hypothesis where it matters.
pub mod Elems
use ruproxy.Prelude.{
  ℕ, zero, suc, ◌+◌, ◌*◌, ◌/◌, ◌%◌, ◌^◌, ◌<◌, ◌≡◌, refl, Bool, true, false, ◌&&◌, List, [], ◌∷◌,
  ◌==◌, All, length, arith, ◌↔◌,
}

abbrev pub Bytes : Type 0
Bytes = List ℕ

abbrev pub IsByte : ℕ → Type 0
IsByte b = b < 256

abbrev pub IsU16 : ℕ → Type 0
IsU16 v = v < 2 ^ 16

abbrev pub IsU32 : ℕ → Type 0
IsU32 v = v < 2 ^ 32

abbrev pub IsU64 : ℕ → Type 0
IsU64 v = v < 2 ^ 64

abbrev pub AllBytes : Bytes → Type 0
AllBytes = All IsByte

-- `u16::from_be_bytes([hi, lo])`
abbrev pub be16 : ℕ → ℕ → ℕ
be16 hi lo = hi * 256 + lo

abbrev pub be32 : ℕ → ℕ → ℕ → ℕ → ℕ
be32 a b c d = ((a * 256 + b) * 256 + c) * 256 + d

-- `u64::from_be_bytes`, on the bytes read so far.
abbrev pub be_onto : ℕ → Bytes → ℕ
be_onto acc [] = acc
be_onto acc (b ∷ bs) = be_onto (acc * 256 + b) bs

-- `to_be_bytes` and `put_u16`
abbrev pub u16_bytes : ℕ → Bytes
u16_bytes v = (v / 256 % 256) ∷ (v % 256) ∷ []

abbrev pub u32_bytes : ℕ → Bytes
u32_bytes v = (v / 2 ^ 24 % 256) ∷ (v / 2 ^ 16 % 256) ∷ (v / 256 % 256) ∷ (v % 256) ∷ []

abbrev pub u64_bytes : ℕ → Bytes
u64_bytes v =
    (v / 2 ^ 56 % 256) ∷ (v / 2 ^ 48 % 256) ∷ (v / 2 ^ 40 % 256) ∷ (v / 2 ^ 32 % 256) ∷ u32_bytes v

-- Equality of byte strings, `==` on slices and strings.
unfoldable pub bytes_eq : Bytes → Bytes → Bool
bytes_eq [] [] = true
bytes_eq (x ∷ xs) (y ∷ ys) = x == y && bytes_eq xs ys
bytes_eq _ _ = false

pub bytes_eq_iff : (a b : Bytes) → (bytes_eq a b ≡ true) ↔ (a ≡ b)
unfolding bytes_eq
bytes_eq_iff (x ∷ a) (y ∷ b) = ground (arith, bytes_eq_iff a b)
bytes_eq_iff _ _ = ground arith

pub bytes_eq_refl : (a : Bytes) → bytes_eq a a ≡ true
bytes_eq_refl a = (bytes_eq_iff a a).1 refl

pub be16-u16_bytes : (v : ℕ) → IsU16 v → be16 (v / 256 % 256) (v % 256) ≡ v
be16-u16_bytes v h = omega arith

pub u16_bytes-be16 : (a b : ℕ) → IsByte a → IsByte b → u16_bytes (be16 a b) ≡ a ∷ b ∷ []
u16_bytes-be16 a b h k = ground arith

pub be32-u32_bytes :
    (v : ℕ) → IsU32 v → be32 (v / 2 ^ 24 % 256) (v / 2 ^ 16 % 256) (v / 256 % 256) (v % 256) ≡ v
be32-u32_bytes v h = omega arith

pub be_onto-u64_bytes : (v : ℕ) → IsU64 v → be_onto 0 (u64_bytes v) ≡ v
be_onto-u64_bytes v h = omega arith

pub u16_bytes-AllBytes : (v : ℕ) → AllBytes (u16_bytes v)
u16_bytes-AllBytes v = omega arith
