-- ===== src/Text/Laws.antt =====
-- Printing and parsing of ports: `decimal` against `parse_unsigned`, and `rsplit_once` at the colon.
use ruproxy.Prelude.{
  ℕ, zero, suc, ◌+◌, ◌-◌, ◌*◌, ◌/◌, ◌%◌, ◌^◌, ◌≤◌, ◌<◌, ◌≡◌, ◌≢◌, refl, ◌∙◌, none, some, [], ◌∷◌,
  ◌++◌, All, arith, append_assoc, ne→==, lt→ltb, ltb→lt, Bool-cases, append-nil, inl, inr, ltb,
  All-append, true,
}
use mathlib.Core.List.{concat-ne-nil}
use native.Mathlib.Nat.{pow-suc}
use ruproxy.Bytes.{Bytes}
use ruproxy.Io.{ok}
use ruproxy.Text.Number.{digits_in, decimal, parse_digits, parse_unsigned}
use ruproxy.Text.Utf8.{is_utf8, from_utf8}
use ruproxy.Text.Split.{rsplit_once}

abbrev pub IsDigit : ℕ → Type 0
IsDigit c = (b'0' ≤ c) × (c ≤ b'9')

parse_digits_step :
    (limit acc d m : ℕ) (rest : Bytes)
    → d < 10
    → acc * 10 + d ≡ m
    → m < limit
    → parse_digits limit acc ((b'0' + d) ∷ rest) ≡ parse_digits limit m rest
unfolding parse_digits
parse_digits_step limit acc d m rest h e k =
    let d' : b'0' + d - b'0' ≡ d = omega arith in rw (d', e) (ground arith)

parse_digits-digits_in :
    (fuel limit n : ℕ) (rest : Bytes)
    → n < 10 ^ suc fuel
    → n < limit
    → parse_digits limit 0 (digits_in (suc fuel) n ++ rest) ≡ parse_digits limit n rest
unfolding digits_in
parse_digits-digits_in zero limit n rest h k =
    rw (lt→ltb n 10 (omega arith))
      (parse_digits_step limit 0 n n rest (omega arith) (omega arith) k)
parse_digits-digits_in (suc fuel) limit n rest h k = elim (Bool-cases (ltb n 10)) [
  | inl small ↦ rw small (parse_digits_step limit 0 n n rest (ltb→lt n 10 small) (omega arith) k)
  | inr large ↦ rw large (
      rw append_assoc (
        parse_digits-digits_in fuel limit (n / 10) _ (omega (arith, pow-suc 10 (suc fuel)))
          (omega arith)
        ∙ parse_digits_step limit (n / 10) (n % 10) n rest (omega arith) (omega arith) k))
]

digits_in-IsDigit : (fuel n : ℕ) → n < 10 ^ fuel → All IsDigit (digits_in fuel n)
unfolding digits_in
digits_in-IsDigit zero n h = tt
digits_in-IsDigit (suc fuel) n h = elim (Bool-cases (ltb n 10)) [
  | inl small ↦ rw small (omega (arith, ltb→lt n 10 small))
  | inr large ↦ rw large (
      All-append IsDigit _ _ (digits_in-IsDigit fuel (n / 10) (omega (arith, pow-suc 10 fuel)))
        (omega arith))
]

digits_in-ne-nil : (fuel n : ℕ) → digits_in (suc fuel) n ≢ []
unfolding digits_in
digits_in-ne-nil fuel n e = elim (Bool-cases (ltb n 10)) [
  | inl small ↦ cc (rw small at e)
  | inr large ↦ concat-ne-nil (b'0' + n % 10) (digits_in fuel (n / 10)) (rw large at e)
]

pub decimal-IsDigit : (n : ℕ) → n < 2 ^ 64 → All IsDigit (decimal n)
unfolding decimal
decimal-IsDigit n h = digits_in-IsDigit 20 n (omega arith)

parse_unsigned-digits :
    (limit : ℕ) (s : Bytes)
    → All IsDigit s
    → s ≢ []
    → parse_unsigned limit s ≡ parse_digits limit 0 s
unfolding parse_unsigned
parse_unsigned-digits limit [] ds h = absurd (h refl)
parse_unsigned-digits limit (c ∷ cs) ds h = rw (ne→== c b'+' (omega arith))

-- A printed u64 reads back, where the type that is parsed can hold it.
pub parse_unsigned-decimal :
    (limit n : ℕ) → n < limit → n < 2 ^ 64 → parse_unsigned limit (decimal n) ≡ ok n
unfolding decimal
parse_unsigned-decimal limit n h k =
    parse_unsigned-digits limit _ (digits_in-IsDigit 20 n (omega arith)) (digits_in-ne-nil 19 n)
    ∙ rw (← append-nil (digits_in 20 n))
        (parse_digits-digits_in 19 limit n [] (omega arith) h ∙ (unfold parse_digits in refl))

no_colon : (s : Bytes) → All IsDigit s → rsplit_once b':' s ≡ none
unfolding rsplit_once
no_colon [] h = refl
no_colon (x ∷ xs) h = rw (no_colon xs h.1) (ground arith)

pub rsplit_once-append :
    (host : Bytes) (s : Bytes)
    → All IsDigit s
    → rsplit_once b':' (host ++ (b':' ∷ s)) ≡ some (host, s)
unfolding rsplit_once
rsplit_once-append [] s h = rw (no_colon s h)
rsplit_once-append (x ∷ xs) s h = rw (rsplit_once-append xs s h)

pub from_utf8_inv : (bs : Bytes) {d : Bytes} → from_utf8 bs ≡ ok d → (bs ≡ d) × (is_utf8 d ≡ true)
unfolding from_utf8
from_utf8_inv bs h = ground arith

pub from_utf8_ok : (bs : Bytes) → is_utf8 bs ≡ true → from_utf8 bs ≡ ok bs
unfolding from_utf8
from_utf8_ok bs h = rw h
