-- ===== src/Reality/Hello/Fuel.antt =====
-- The loops over a ClientHello come to their end within their fuel, whatever they read.
use ruproxy.Prelude.{
  ℕ, zero, suc, ◌+◌, ◌-◌, ◌*◌, ◌≤◌, ◌<◌, ◌≡◌, refl, sym, ap, true, false, ◌&&◌, Option, some, ◌==◌,
  ltb, leb, if◌then◌else◌, arith, le→leb, lt→ltb,
}
use ruproxy.Bytes.{Bytes}
use ruproxy.Io.{or_fault, no_x25519, err, no_key_share, key_share_bounds, extension_bounds, ok}
use ruproxy.Reality.Hello.{
  u16_at, slice, shares_from, extensions_from, suites_from, group_x25519, group_x25519mlkem768,
  ext_key_share, parse_x25519_key_share, is_aes_suite, is_chacha_suite,
}

pub shares_from_end :
    (fuel : ℕ) (d : Bytes) (end pos : ℕ) (mlkem : Option Bytes)
    → end < pos + 4
    → shares_from fuel d end pos mlkem ≡ or_fault no_x25519 mlkem
unfolding shares_from
shares_from_end zero d end pos mlkem h = refl
shares_from_end (suc fuel) d end pos mlkem h = rw (lt→ltb end (pos + 4) h) refl

-- A round over the shares takes four bytes or more, so any two amounts of fuel that cover the bytes that
-- are left give the same.
pub shares_from-fuel :
    (f g : ℕ) (d : Bytes) (end pos : ℕ) (mlkem : Option Bytes)
    → end < pos + 4 + 4 * f
    → end < pos + 4 + 4 * g
    → shares_from f d end pos mlkem ≡ shares_from g d end pos mlkem
unfolding shares_from
shares_from-fuel zero g d end pos mlkem h k = sym (shares_from_end g d end pos mlkem (omega arith))
shares_from-fuel (suc f) zero d end pos mlkem h k =
    shares_from_end (suc f) d end pos mlkem (omega arith)
shares_from-fuel (suc f) (suc g) d end pos mlkem h k =
    let n = u16_at d (pos + 2) in
    let found : Option Bytes =
      (if u16_at d pos == group_x25519mlkem768 && leb 1120 n
        then some (slice d (pos + 4 + (n - 32)) 32)
        else mlkem) in
    let ih = shares_from-fuel f g d end (pos + 4 + n) found (omega arith) (omega arith) in
    ap
      (λ r.
        if ltb end (pos + 4)
        then or_fault no_x25519 mlkem
        else if ltb end (pos + 4 + n)
        then err key_share_bounds
        else if u16_at d pos == group_x25519 && n == 32
        then ok (slice d (pos + 4) 32)
        else r)
      ih

pub extensions_from_end :
    (fuel : ℕ) (d : Bytes) (end pos : ℕ)
    → end < pos + 4
    → extensions_from fuel d end pos ≡ err no_key_share
unfolding extensions_from
extensions_from_end zero d end pos h = refl
extensions_from_end (suc fuel) d end pos h = rw (lt→ltb end (pos + 4) h) refl

-- The same for the extensions.
pub extensions_from-fuel :
    (f g : ℕ) (d : Bytes) (end pos : ℕ)
    → end < pos + 4 + 4 * f
    → end < pos + 4 + 4 * g
    → extensions_from f d end pos ≡ extensions_from g d end pos
unfolding extensions_from
extensions_from-fuel zero g d end pos h k = sym (extensions_from_end g d end pos (omega arith))
extensions_from-fuel (suc f) zero d end pos h k =
    extensions_from_end (suc f) d end pos (omega arith)
extensions_from-fuel (suc f) (suc g) d end pos h k =
    let n = u16_at d (pos + 2) in
    let ih = extensions_from-fuel f g d end (pos + 4 + n) (omega arith) (omega arith) in
    ap
      (λ r.
        if ltb end (pos + 4)
        then err no_key_share
        else if ltb end (pos + 4 + n)
        then err extension_bounds
        else if u16_at d pos == ext_key_share
        then parse_x25519_key_share (slice d (pos + 4) n)
        else r)
      ih

pub suites_from_end :
    (fuel : ℕ) (d : Bytes) (end i : ℕ) → end ≤ i + 1 → suites_from fuel d end i ≡ true
unfolding suites_from
suites_from_end zero d end i h = refl
suites_from_end (suc fuel) d end i h = rw (le→leb end (i + 1) h) refl

-- The same for the cipher suites, of two bytes each.
pub suites_from-fuel :
    (f g : ℕ) (d : Bytes) (end i : ℕ)
    → end ≤ i + 1 + 2 * f
    → end ≤ i + 1 + 2 * g
    → suites_from f d end i ≡ suites_from g d end i
unfolding suites_from
suites_from-fuel zero g d end i h k = sym (suites_from_end g d end i (omega arith))
suites_from-fuel (suc f) zero d end i h k = suites_from_end (suc f) d end i (omega arith)
suites_from-fuel (suc f) (suc g) d end i h k =
    let ih = suites_from-fuel f g d end (i + 2) (omega arith) (omega arith) in
    ap
      (λ r.
        if leb end (i + 1)
        then true
        else if is_aes_suite (u16_at d i)
        then true
        else if is_chacha_suite (u16_at d i)
        then false
        else r)
      ih
