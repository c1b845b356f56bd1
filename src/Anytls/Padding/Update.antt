-- ===== src/Anytls/Padding/Update.antt =====
-- The scheme in use, after any update.
use ruproxy.Prelude.{
  ℕ, ◌^◌, ◌<◌, ◌≡◌, refl, true, false, Option, none, some, List, [], ◌∷◌, ◌==◌, length, arith, All,
  inl, inr, Bool-cases,
}
use ruproxy.Bytes.{Bytes, bytes_eq}
use ruproxy.Io.{Result, ok, err}
use ruproxy.Map.{Map, insert, remove, nat_eq}
use ruproxy.Anytls.Padding.{
  ℤ, PaddingScheme, split, parse_size_list, Parsed, set_stop, set_rule, key_value, stop_key,
  scheme_line, scheme_lines, option_then, finish, from_bytes, replace, update,
}
use ruproxy.Text.{parse_unsigned, split_once, trim, lines, is_utf8}
use ruproxy.Anytls.Padding.Sizes.{parse_unsigned-lt, IsRange, sizes_of-IsSize, IsRule}

abbrev IsParsed : Parsed → Type 0
IsParsed (none, rules) = All IsRule rules
IsParsed (some stop, rules) = (stop < 2 ^ 32) × All IsRule rules

remove-All : (k : ℕ) (m : Map ℕ (List ℤ)) → All IsRule m → All IsRule (remove k m)
unfolding remove
remove-All k [] h = tt
remove-All k ((j, v) ∷ m) h = elim (Bool-cases (j == k)) [
  | inl e ↦ rw e (remove-All k m h.1)
  | inr e ↦ rw e (h.0, remove-All k m h.1)
]

abbrev IsParsedOption : Option Parsed → Type 0
IsParsedOption none = Unit
IsParsedOption (some st) = IsParsed st

stop-IsParsed :
    (stop : Option ℕ) (rules : Map ℕ (List ℤ)) → IsParsed (stop, rules) → All IsRule rules
stop-IsParsed none rules h = h
stop-IsParsed (some n) rules h = h.1

with_rules-IsParsed :
    (stop : Option ℕ) (old new : Map ℕ (List ℤ))
    → IsParsed (stop, old)
    → All IsRule new
    → IsParsed (stop, new)
with_rules-IsParsed none old new h k = k
with_rules-IsParsed (some n) old new h k = (h.0, k)

set_stop-IsParsed :
    (st : Parsed) (r : Result ℕ)
    → IsParsed st
    → ((n : ℕ) → r ≡ ok n → n < 2 ^ 32)
    → IsParsedOption (set_stop st r)
set_stop-IsParsed (stop, rules) (ok n) h k = (k n refl, stop-IsParsed stop rules h)
set_stop-IsParsed (stop, rules) (err e) h k = tt

set_rule-IsParsed :
    (pick : ℕ → ℕ → ℕ → ℕ) (v : Bytes) (st : Parsed) (r : Result ℕ)
    → ((i : ℕ) → IsRange (pick i))
    → IsParsed st
    → ((n : ℕ) → r ≡ ok n → n < 2 ^ 32)
    → IsParsedOption (set_rule pick v st r)
unfolding parse_size_list insert
set_rule-IsParsed pick v (stop, rules) (ok idx) p h k = with_rules-IsParsed stop rules _ h (
  (k idx refl, sizes_of-IsSize pick (split b',' v) p),
  remove-All idx rules (stop-IsParsed stop rules h),
)
set_rule-IsParsed pick v (stop, rules) (err e) p h k = h

key_value-IsParsed :
    (pick : ℕ → ℕ → ℕ → ℕ) (st : Parsed) (o : Option (Bytes × Bytes))
    → ((i : ℕ) → IsRange (pick i))
    → IsParsed st
    → IsParsedOption (key_value pick st o)
key_value-IsParsed pick st none p h = tt
key_value-IsParsed pick st (some (k, v)) p h = elim (Bool-cases (bytes_eq (trim k) stop_key)) [
  | inl e ↦ rw e (
      set_stop-IsParsed st (parse_unsigned (2 ^ 32) (trim v)) h
        λ n r. parse_unsigned-lt (2 ^ 32) (trim v) n (omega arith) r)
  | inr e ↦ rw e (
      set_rule-IsParsed pick (trim v) st (parse_unsigned (2 ^ 32) (trim k)) p h
        λ n r. parse_unsigned-lt (2 ^ 32) (trim k) n (omega arith) r)
]

scheme_line-IsParsed :
    (pick : ℕ → ℕ → ℕ → ℕ) (st : Parsed) (line : Bytes)
    → ((i : ℕ) → IsRange (pick i))
    → IsParsed st
    → IsParsedOption (scheme_line pick st line)
unfolding scheme_line
scheme_line-IsParsed pick st [] p h = h
scheme_line-IsParsed pick st (c ∷ cs) p h =
    key_value-IsParsed pick st (split_once b'=' (c ∷ cs)) p h

then-IsParsed :
    (o : Option Parsed) (f : Parsed → Option Parsed)
    → IsParsedOption o
    → ((st : Parsed) → IsParsed st → IsParsedOption (f st))
    → IsParsedOption (option_then o f)
then-IsParsed none f h go = tt
then-IsParsed (some st) f h go = go st h

scheme_lines-IsParsed :
    (pick : ℕ → ℕ → ℕ → ℕ → ℕ) (ls : List Bytes) (st : Parsed)
    → ((i j : ℕ) → IsRange (pick i j))
    → IsParsed st
    → IsParsedOption (scheme_lines pick ls st)
unfolding scheme_lines
scheme_lines-IsParsed pick [] st p h = h
scheme_lines-IsParsed pick (line ∷ more) st p h =
    then-IsParsed (scheme_line (pick (length more)) st (trim line)) (scheme_lines pick more)
      (scheme_line-IsParsed (pick (length more)) st (trim line) (p (length more)) h)
      λ next k. scheme_lines-IsParsed pick more next p k

module _ (md5 : Bytes → Bytes) (pick : ℕ → ℕ → ℕ → ℕ → ℕ) where
  -- A scheme that can be in use.
  abbrev pub IsScheme : PaddingScheme → Type 0
  IsScheme scheme =
      (scheme.stop < 2 ^ 32)
      × All IsRule scheme.rules
      × (scheme.md5_hex ≡ md5 scheme.raw)
      × (is_utf8 scheme.raw ≡ true)

  abbrev pub IsAccepted : Bytes → Option PaddingScheme → Type 0
  IsAccepted raw none = Unit
  IsAccepted raw (some scheme) = IsScheme scheme × (scheme.raw ≡ raw)

  finish-IsAccepted :
      (raw : Bytes) (o : Option Parsed)
      → is_utf8 raw ≡ true
      → IsParsedOption o
      → IsAccepted raw (option_then o (finish md5 pick raw))
  finish-IsAccepted raw none u h = tt
  finish-IsAccepted raw (some (none, rules)) u h = tt
  finish-IsAccepted raw (some (some stop, rules)) u h = ((h.0, h.1, refl, u), refl)

  from_bytes-IsAccepted :
      (raw : Bytes) → ((i j : ℕ) → IsRange (pick i j)) → IsAccepted raw (from_bytes md5 pick raw)
  unfolding from_bytes
  from_bytes-IsAccepted raw p = elim (Bool-cases (is_utf8 raw)) [
    | inl u ↦ rw u (
        finish-IsAccepted raw (scheme_lines pick (lines raw) (none, [])) u
          (scheme_lines-IsParsed pick (lines raw) (none, []) p tt))
    | inr n ↦ rw n tt
  ]

  replace-IsScheme :
      (raw : Bytes) (current : PaddingScheme) (o : Option PaddingScheme)
      → IsScheme current
      → IsAccepted raw o
      → IsScheme (replace md5 pick current o).0
        × (((replace md5 pick current o).1 ≡ true) → (replace md5 pick current o).0.raw ≡ raw)
        × (((replace md5 pick current o).1 ≡ false) → (replace md5 pick current o).0 ≡ current)
  replace-IsScheme raw current none h k = (h, λ e. cc, λ e. refl)
  replace-IsScheme raw current (some scheme) h k = (k.0, λ e. k.1, λ e. cc)

  -- Whatever bytes `update` is given, the scheme in use afterwards has a stop and rule numbers of
  -- 32 bits, sizes that are the check mark or positive and below 2^63, and the MD5 of its own
  -- bytes, which are UTF-8; if it returns true the scheme is that of the bytes, and if it returns
  -- false it is the one that was there. The scheme before is such a one, and random numbers stay
  -- within their range.
  pub update-IsScheme :
      (raw : Bytes) (current : PaddingScheme)
      → ((i j : ℕ) → IsRange (pick i j))
      → IsScheme current
      → IsScheme (update md5 pick raw current).0
        × (((update md5 pick raw current).1 ≡ true) → (update md5 pick raw current).0.raw ≡ raw)
        × (((update md5 pick raw current).1 ≡ false) → (update md5 pick raw current).0 ≡ current)
  unfolding update
  update-IsScheme raw current p h =
      replace-IsScheme raw current (from_bytes md5 pick raw) h (from_bytes-IsAccepted raw p)
