-- ===== src/Anytls/Padding/Sizes.antt =====
-- What a padding scheme can hold, once it is accepted.
use ruproxy.Prelude.{
  ℕ, zero, suc, ◌+◌, ◌-◌, ◌*◌, ◌^◌, ◌≤◌, ◌<◌, ◌≡◌, refl, subst, ◌&&◌, Option, none, some, List, [],
  ◌∷◌, ◌==◌, ltb, leb, length, arith, All, ◌⊎◌, inl, inr, min, max, Bool-cases, All-append,
}
use ruproxy.Bytes.{Bytes, bytes_eq}
use ruproxy.Io.{Result, ok, err}
use ruproxy.Map.{nat_eq}
use ruproxy.Anytls.Padding.{
  ℤ, pos, negsuc, check_mark, parse_i64, result_map, negated, size_between, range_of, parse_size,
  sizes_of,
}
use ruproxy.Text.{parse_unsigned, parse_nonempty, parse_digits, split_once, trim}

parse_digits-lt :
    (limit acc : ℕ) (s : Bytes) (n : ℕ) → acc < limit → parse_digits limit acc s ≡ ok n → n < limit
unfolding parse_digits
parse_digits-lt limit acc [] n h e = subst (λ k. k < limit) (cc) h
parse_digits-lt limit acc (c ∷ cs) n h e =
    let m = acc * 10 + (c - b'0') in
    elim (Bool-cases (leb b'0' c && leb c b'9' && ltb m limit)) [
      | inl go ↦ parse_digits-lt limit m cs n (ground arith) (rw go at e)
      | inr stop ↦ cc (rw stop at e)
    ]

parse_nonempty-lt :
    (limit : ℕ) (s : Bytes) (n : ℕ) → 0 < limit → parse_nonempty limit s ≡ ok n → n < limit
unfolding parse_nonempty
parse_nonempty-lt limit [] n h e = cc
parse_nonempty-lt limit (c ∷ cs) n h e = parse_digits-lt limit 0 (c ∷ cs) n h e

pub parse_unsigned-lt :
    (limit : ℕ) (s : Bytes) (n : ℕ) → 0 < limit → parse_unsigned limit s ≡ ok n → n < limit
unfolding parse_unsigned
parse_unsigned-lt limit [] n h e = cc
parse_unsigned-lt limit (c ∷ cs) n h e = elim (Bool-cases (c == b'+')) [
  | inl plus ↦ parse_nonempty-lt limit cs n h (rw plus at e)
  | inr digit ↦ parse_digits-lt limit 0 (c ∷ cs) n h (rw digit at e)
]

-- The mark, or a positive i64.
abbrev pub IsSize : ℤ → Type 0
IsSize z = (z ≡ check_mark) ⊎ ((n : ℕ) × (z ≡ pos n) × (0 < n) × (n < 2 ^ 63))

-- An i64.
abbrev IsI64 : Result ℤ → Type 0
IsI64 (ok (pos n)) = n < 2 ^ 63
IsI64 (ok (negsuc n)) = Unit
IsI64 (err e) = Unit

mapped-IsI64 : (r : Result ℕ) → ((n : ℕ) → r ≡ ok n → n < 2 ^ 63) → IsI64 (result_map pos r)
mapped-IsI64 (ok n) h = h n refl
mapped-IsI64 (err e) h = tt

negated-IsI64 : (r : Result ℕ) → IsI64 (result_map negated r)
negated-IsI64 (ok zero) = omega arith
negated-IsI64 (ok (suc n)) = tt
negated-IsI64 (err e) = tt

parse_i64-IsI64 : (s : Bytes) → IsI64 (parse_i64 s)
unfolding parse_i64
parse_i64-IsI64 [] =
    mapped-IsI64 (parse_unsigned (2 ^ 63) []) λ n e. parse_unsigned-lt (2 ^ 63) [] n (omega arith) e
parse_i64-IsI64 (c ∷ cs) = elim (Bool-cases (c == b'-')) [
  | inl minus ↦ rw minus (negated-IsI64 (parse_nonempty (2 ^ 63 + 1) cs))
  | inr digit ↦ rw digit (
      mapped-IsI64 (parse_unsigned (2 ^ 63) (c ∷ cs))
        λ n e. parse_unsigned-lt (2 ^ 63) (c ∷ cs) n (omega arith) e)
]

-- `gen_range`
abbrev pub IsRange : (ℕ → ℕ → ℕ) → Type 0
IsRange pick = (lo hi : ℕ) → lo < hi → (lo ≤ pick lo hi) × (pick lo hi ≤ hi)

size_between-IsSize :
    (pick : ℕ → ℕ → ℕ) (a b : Result ℤ)
    → IsRange pick
    → IsI64 a
    → IsI64 b
    → All IsSize (size_between pick a b)
unfolding size_between
size_between-IsSize pick (ok (pos zero)) b r h k = tt
size_between-IsSize pick (ok (negsuc n)) b r h k = tt
size_between-IsSize pick (err e) b r h k = tt
size_between-IsSize pick (ok (pos (suc lo))) (ok (pos zero)) r h k = tt
size_between-IsSize pick (ok (pos (suc lo))) (ok (negsuc n)) r h k = tt
size_between-IsSize pick (ok (pos (suc lo))) (err e) r h k = tt
size_between-IsSize pick (ok (pos (suc lo))) (ok (pos (suc hi))) r h k =
    elim (Bool-cases (lo == hi)) [
      | inl e ↦ rw e (inr (suc lo, refl, omega arith, h), tt)
      | inr e ↦
          let d : min (suc lo) (suc hi) < max (suc lo) (suc hi) = ground arith in
          let (above, below) = r (min (suc lo) (suc hi)) (max (suc lo) (suc hi)) d in
          rw e (
            inr (
              pick (min (suc lo) (suc hi)) (max (suc lo) (suc hi)),
              refl,
              omega arith,
              omega arith,
            ),
            tt,
          )
    ]

range_of-IsSize :
    (pick : ℕ → ℕ → ℕ) (o : Option (Bytes × Bytes)) → IsRange pick → All IsSize (range_of pick o)
range_of-IsSize pick none r = tt
range_of-IsSize pick (some (lo_s, hi_s)) r =
    size_between-IsSize pick (parse_i64 lo_s) (parse_i64 hi_s) r (parse_i64-IsI64 lo_s)
      (parse_i64-IsI64 hi_s)

parse_size-IsSize :
    (pick : ℕ → ℕ → ℕ) (part : Bytes) → IsRange pick → All IsSize (parse_size pick part)
unfolding parse_size
parse_size-IsSize pick part r = elim (Bool-cases (bytes_eq part (b'c' ∷ []))) [
  | inl e ↦ rw e (inl refl, tt)
  | inr e ↦ rw e (range_of-IsSize pick (split_once b'-' part) r)
]

pub sizes_of-IsSize :
    (pick : ℕ → ℕ → ℕ → ℕ) (parts : List Bytes)
    → ((i : ℕ) → IsRange (pick i))
    → All IsSize (sizes_of pick parts)
unfolding sizes_of
sizes_of-IsSize pick [] r = tt
sizes_of-IsSize pick (part ∷ parts) r =
    All-append IsSize (parse_size (pick (length parts)) (trim part)) (sizes_of pick parts)
      (parse_size-IsSize (pick (length parts)) (trim part) (r (length parts)))
      (sizes_of-IsSize pick parts r)

-- A rule: a u32, and its sizes.
abbrev pub IsRule : ℕ × List ℤ → Type 0
IsRule (idx, sizes) = (idx < 2 ^ 32) × All IsSize sizes
