-- ===== src/Bits.antt =====
-- `|` and `&` on machine words, where the operands' bits are disjoint or the mask is a low one: the
-- laws that turn shifts and masks of the wire formats into arithmetic.
pub mod Xor
use ruproxy.Prelude.{
  ℕ, zero, suc, ◌+◌, ◌*◌, ◌/◌, ◌%◌, ◌^◌, ◌≤◌, ◌<◌, ◌≡◌, refl, sym, ap, Bool, true, false, ◌==◌,
  if◌then◌else◌, arith, inl, inr, max, bit_and, bit_or, Bool-cases, ==_iff,
}
use Prim.Native.Nat.{digits, bit_or-bitwise}
use native.Mathlib.Nat.{pow-suc}

-- How far the definition of `|` looks makes no difference from `a` on.
or_agree_none :
    (a b n : ℕ) → a ≡ 0 → digits (λ right. right) max n a b ≡ digits (λ right. right) max 0 a b
or_agree_none (suc a) b n at_zero = absurd (omega arith)
or_agree_none zero b zero at_zero = refl
or_agree_none zero b (suc n) at_zero = refl

or_agree :
    (a b n m : ℕ)
    → a ≤ n
    → a ≤ m
    → digits (λ right. right) max n a b ≡ digits (λ right. right) max m a b
or_agree a b (suc n) zero far near = or_agree_none a b (suc n) (omega arith)
or_agree a b zero m far near = sym (or_agree_none a b m (omega arith))
or_agree zero b (suc n) (suc m) far near = refl
or_agree (suc a) b (suc n) (suc m) far near =
    let half = or_agree (suc a / 2) (b / 2) n m (omega arith) (omega arith) in omega (arith, half)

pub zero-bit_or : (b : ℕ) → bit_or 0 b ≡ b
zero-bit_or b = bit_or-bitwise 0 b

-- The lowest digit of `a | b`, and the others.
pub bit_or_step : (a b : ℕ) → bit_or a b ≡ bit_or (a / 2) (b / 2) * 2 + max (a % 2) (b % 2)
bit_or_step (suc a) b =
    let half = or_agree (suc a / 2) (b / 2) a (suc a / 2) (omega arith) (omega arith) in
    omega (arith, half, bit_or-bitwise (suc a) b, bit_or-bitwise (suc a / 2) (b / 2))
bit_or_step zero b = omega (arith, zero-bit_or (b / 2), zero-bit_or b)

bit_or-zero_in : (a n : ℕ) → a ≤ n → bit_or a 0 ≡ a
bit_or-zero_in zero n h = refl
bit_or-zero_in (suc a) zero h = absurd (omega arith)
bit_or-zero_in (suc a) (suc n) h =
    let half = bit_or-zero_in (suc a / 2) n (omega arith) in
    omega (arith, half, bit_or_step (suc a) 0)

-- A word whose `k` low bits are clear, or-ed with one of at most `k` bits, is their sum.
pub bit_or_disjoint : (k c v : ℕ) → v < 2 ^ k → bit_or (c * 2 ^ k) v ≡ c * 2 ^ k + v
bit_or_disjoint zero c v h =
    let none_low : v ≡ 0 = omega arith in
    let same : c * 2 ^ 0 ≡ c = omega arith in
    rw (none_low, same, bit_or-zero_in c c (omega arith)) (omega arith)
bit_or_disjoint (suc k) c v h =
    let double = ap (λ (t : ℕ). c * t) (pow-suc 2 k) in
    let half : c * 2 ^ suc k / 2 ≡ c * 2 ^ k = omega (arith, double) in
    omega (
      arith,
      double,
      pow-suc 2 k,
      bit_or_step (c * 2 ^ suc k) v,
      ap (λ (t : ℕ). bit_or t (v / 2)) half,
      bit_or_disjoint k c (v / 2) (omega (arith, pow-suc 2 k)),
    )

-- The test passes at every number under the bound.
holds_under : (ℕ → Bool) → ℕ → Bool
holds_under test zero = true
holds_under test (suc n) = if test n then holds_under test n else false

holds_under_at :
    (test : ℕ → Bool) (bound x : ℕ) → x < bound → holds_under test bound ≡ true → test x ≡ true
unfolding holds_under
holds_under_at test (suc n) x small h = elim (Bool-cases (test n)) [
  | inl here ↦ ground (arith, holds_under_at test n x)
  | inr gone ↦ cc (rw gone at h)
]
holds_under_at test zero x small h = absurd (omega arith)

-- `b & 0x3f` on a byte.
pub bit_and_0x3f : (b : ℕ) → b < 256 → bit_and b 0x3f ≡ b % 64
unfolding holds_under
bit_and_0x3f b h =
    let by_table = holds_under_at (λ (x : ℕ). bit_and x 0x3f == x % 64) 256 b h refl in
    (==_iff (bit_and b 0x3f) (b % 64)).0 by_table

-- `b & 0x0f` on a byte.
pub bit_and_0x0f : (b : ℕ) → b < 256 → bit_and b 0x0f ≡ b % 16
unfolding holds_under
bit_and_0x0f b h =
    let by_table = holds_under_at (λ (x : ℕ). bit_and x 0x0f == x % 16) 256 b h refl in
    (==_iff (bit_and b 0x0f) (b % 16)).0 by_table
