-- ===== src/Anytls/Padding.antt =====
-- The padding schemes of src/anytls/padding.rs. MD5 with its hex text, and the random number of each part
-- of each line, are parameters.
pub mod Sizes
pub mod Update
use ruproxy.Bytes.{Bytes, bytes_eq}
use ruproxy.Io.{Result, ok, err}
use ruproxy.Map.{Map, insert, lookup, nat_eq}
use ruproxy.Prelude.{
  ℕ, zero, suc, ◌*◌, ◌^◌, Bool, true, false, not, ◌&&◌, ◌||◌, Option, none, some, List, [], ◌∷◌,
  ◌++◌, ◌==◌, length, min, max, if◌then◌else◌, ◌+◌,
}
use ruproxy.Text.{split_once, trim, lines, parse_unsigned, parse_nonempty, is_utf8}

-- `i64`
pub data ℤ : Type 0 where
  pos negsuc : ℕ → ℤ

abbrev pub check_mark : ℤ
check_mark = negsuc 0

pub record PaddingScheme : Type 0 where
  pub stop : ℕ
  pub rules : Map ℕ (List ℤ)
  pub raw : Bytes
  pub md5_hex : Bytes

abbrev pub negated : ℕ → ℤ
negated zero = pos 0
negated (suc n) = negsuc n

abbrev pub result_map {ℓ κ} : {A : Type ℓ} {B : Type κ} → (A → B) → Result A → Result B
result_map f (ok a) = ok (f a)
result_map f (err e) = err e

-- `parse::<i64>`
unfoldable pub parse_i64 : Bytes → Result ℤ
parse_i64 [] = result_map pos (parse_unsigned (2 ^ 63) [])
parse_i64 (c ∷ cs) =
    if c == b'-'
    then result_map negated (parse_nonempty (2 ^ 63 + 1) cs)
    else result_map pos (parse_unsigned (2 ^ 63) (c ∷ cs))

-- `split(c)`
abbrev pub at_first : ℕ → List Bytes → List Bytes
at_first x [] = (x ∷ []) ∷ []
at_first x (p ∷ ps) = (x ∷ p) ∷ ps

unfoldable pub split : ℕ → Bytes → List Bytes
split c [] = [] ∷ []
split c (x ∷ xs) = let rest = split c xs in if x == c then [] ∷ rest else at_first x rest

-- `lo..=hi`, whichever of the two is the less; none unless both are positive.
unfoldable pub size_between : (ℕ → ℕ → ℕ) → Result ℤ → Result ℤ → List ℤ
size_between pick (ok (pos (suc lo))) (ok (pos (suc hi))) =
    (if lo == hi then pos (suc lo) else pos (pick (min (suc lo) (suc hi)) (max (suc lo) (suc hi))))
    ∷ []
size_between pick _ _ = []

abbrev pub range_of : (ℕ → ℕ → ℕ) → Option (Bytes × Bytes) → List ℤ
range_of pick none = []
range_of pick (some (lo_s, hi_s)) = size_between pick (parse_i64 lo_s) (parse_i64 hi_s)

unfoldable pub parse_size : (ℕ → ℕ → ℕ) → Bytes → List ℤ
parse_size pick part =
    if bytes_eq part (b'c' ∷ []) then check_mark ∷ [] else range_of pick (split_once b'-' part)

unfoldable pub sizes_of : (ℕ → ℕ → ℕ → ℕ) → List Bytes → List ℤ
sizes_of pick [] = []
sizes_of pick (part ∷ parts) = parse_size (pick (length parts)) (trim part) ++ sizes_of pick parts

unfoldable pub parse_size_list : (ℕ → ℕ → ℕ → ℕ) → Bytes → List ℤ
parse_size_list pick s = sizes_of pick (split b',' s)

-- `stop` and `rules` so far.
abbrev pub Parsed : Type 0
Parsed = Option ℕ × Map ℕ (List ℤ)

-- The bytes of "stop".
abbrev pub stop_key : Bytes
stop_key = b's' ∷ b't' ∷ b'o' ∷ b'p' ∷ []

abbrev pub set_stop : Parsed → Result ℕ → Option Parsed
set_stop (stop, rules) (ok n) = some (some n, rules)
set_stop (stop, rules) (err e) = none

abbrev pub set_rule : (ℕ → ℕ → ℕ → ℕ) → Bytes → Parsed → Result ℕ → Option Parsed
set_rule pick v (stop, rules) (ok idx) = some (stop, insert idx (parse_size_list pick v) rules)
set_rule pick v (stop, rules) (err e) = some (stop, rules)

abbrev pub key_value : (ℕ → ℕ → ℕ → ℕ) → Parsed → Option (Bytes × Bytes) → Option Parsed
key_value pick st none = none
key_value pick st (some (k, v)) =
    if bytes_eq (trim k) stop_key
    then set_stop st (parse_unsigned (2 ^ 32) (trim v))
    else set_rule pick (trim v) st (parse_unsigned (2 ^ 32) (trim k))

-- One line, without the whitespace around it.
unfoldable pub scheme_line : (ℕ → ℕ → ℕ → ℕ) → Parsed → Bytes → Option Parsed
scheme_line pick st [] = some st
scheme_line pick st (c ∷ cs) = key_value pick st (split_once b'=' (c ∷ cs))

abbrev pub option_then {ℓ κ} : {A : Type ℓ} {B : Type κ} → Option A → (A → Option B) → Option B
option_then none f = none
option_then (some a) f = f a

unfoldable pub scheme_lines : (ℕ → ℕ → ℕ → ℕ → ℕ) → List Bytes → Parsed → Option Parsed
scheme_lines pick [] st = some st
scheme_lines pick (line ∷ more) st =
    option_then (scheme_line (pick (length more)) st (trim line)) (scheme_lines pick more)

module _ (md5 : Bytes → Bytes) (pick : ℕ → ℕ → ℕ → ℕ → ℕ) where
  abbrev pub finish : Bytes → Parsed → Option PaddingScheme
  finish raw (none, rules) = none
  finish raw (some stop, rules) =
      some (record { stop = stop; rules = rules; raw = raw; md5_hex = md5 raw })

  unfoldable pub from_bytes : Bytes → Option PaddingScheme
  from_bytes raw =
      if is_utf8 raw
      then option_then (scheme_lines pick (lines raw) (none, [])) (finish raw)
      else none

  -- `SharedPadding::update`, with the scheme afterwards.
  abbrev pub replace : PaddingScheme → Option PaddingScheme → PaddingScheme × Bool
  replace current (some scheme) = (scheme, true)
  replace current none = (current, false)

  unfoldable pub update : Bytes → PaddingScheme → PaddingScheme × Bool
  update raw current = replace current (from_bytes raw)

-- `sizes_for`
unfoldable pub sizes_for : PaddingScheme → ℕ → List ℤ
sizes_for scheme pkt = elim (lookup pkt scheme.rules) [ some v ↦ v | none ↦ [] ]
