-- ===== src/Bits/Xor.antt =====
-- `^` on machine words: it stays within the word, and masking twice gives the word back.
use ruproxy.Prelude.{
  ℕ, zero, suc, ◌+◌, ◌*◌, ◌/◌, ◌%◌, ◌^◌, ◌≤◌, ◌<◌, ◌≡◌, refl, sym, ap, ap₂, arith, bit_xor,
}
use Prim.Native.Nat.{digits, differ, bit_xor-bitwise}
use native.Mathlib.Nat.{pow-suc}

xor_agree_none :
    (a b n : ℕ)
    → a ≡ 0
    → digits (λ right. right) differ n a b ≡ digits (λ right. right) differ 0 a b
xor_agree_none (suc a) b n at_zero = absurd (omega arith)
xor_agree_none zero b zero at_zero = refl
xor_agree_none zero b (suc n) at_zero = refl

-- How far the definition of `^` looks makes no difference from `a` on.
xor_agree :
    (a b n m : ℕ)
    → a ≤ n
    → a ≤ m
    → digits (λ right. right) differ n a b ≡ digits (λ right. right) differ m a b
xor_agree a b (suc n) zero far near = xor_agree_none a b (suc n) (omega arith)
xor_agree a b zero m far near = sym (xor_agree_none a b m (omega arith))
xor_agree zero b (suc n) (suc m) far near = refl
xor_agree (suc a) b (suc n) (suc m) far near =
    ap (λ (t : ℕ). t * 2 + differ (suc a % 2) (b % 2))
      (xor_agree (suc a / 2) (b / 2) n m (omega arith) (omega arith))

zero-bit_xor : (b : ℕ) → bit_xor 0 b ≡ b
zero-bit_xor b = bit_xor-bitwise 0 b

-- The lowest digit of `a ^ b`, and the others.
bit_xor_step : (a b : ℕ) → bit_xor a b ≡ bit_xor (a / 2) (b / 2) * 2 + differ (a % 2) (b % 2)
bit_xor_step (suc a) b =
    let half = xor_agree (suc a / 2) (b / 2) a (suc a / 2) (omega arith) (omega arith) in
    omega (arith, half, bit_xor-bitwise (suc a) b, bit_xor-bitwise (suc a / 2) (b / 2))
bit_xor_step zero b = omega (arith, zero-bit_xor (b / 2), zero-bit_xor b)

differ_bit : (x y : ℕ) → x < 2 → y < 2 → (differ x y < 2) × (differ (differ x y) y ≡ x)
differ_bit zero zero h k = (omega arith, refl)
differ_bit zero (suc zero) h k = (omega arith, refl)
differ_bit (suc zero) zero h k = (omega arith, refl)
differ_bit (suc zero) (suc zero) h k = (omega arith, refl)
differ_bit (suc (suc x)) y h k = absurd (omega arith)
differ_bit x (suc (suc y)) h k = absurd (omega arith)

pub bit_xor-lt : (k a b : ℕ) → a < 2 ^ k → b < 2 ^ k → bit_xor a b < 2 ^ k
bit_xor-lt zero a b h g =
    let a0 : a ≡ 0 = omega arith in let b0 : b ≡ 0 = omega arith in rw (a0, b0) (omega arith)
bit_xor-lt (suc k) a b h g = omega (
  arith,
  bit_xor_step a b,
  pow-suc 2 k,
  bit_xor-lt k (a / 2) (b / 2) (omega (arith, pow-suc 2 k)) (omega (arith, pow-suc 2 k)),
  (differ_bit (a % 2) (b % 2) (omega arith) (omega arith)).0,
)

pub bit_xor_twice : (k a b : ℕ) → a < 2 ^ k → b < 2 ^ k → bit_xor (bit_xor a b) b ≡ a
bit_xor_twice zero a b h g =
    let a0 : a ≡ 0 = omega arith in
    let b0 : b ≡ 0 = omega arith in rw (a0, b0, zero-bit_xor 0, zero-bit_xor 0) refl
bit_xor_twice (suc k) a b h g =
    let (small, back) = differ_bit (a % 2) (b % 2) (omega arith) (omega arith) in
    let low : bit_xor a b % 2 ≡ differ (a % 2) (b % 2) = omega (arith, bit_xor_step a b, small) in
    let high : bit_xor a b / 2 ≡ bit_xor (a / 2) (b / 2) = omega (arith, bit_xor_step a b, small) in
    let rest =
      bit_xor_twice k (a / 2) (b / 2) (omega (arith, pow-suc 2 k)) (omega (arith, pow-suc 2 k)) in
    omega (
      arith,
      bit_xor_step (bit_xor a b) b,
      ap₂ (λ (t u : ℕ). bit_xor t (b / 2) * 2 + differ u (b % 2)) high low,
      rest,
      back,
    )
