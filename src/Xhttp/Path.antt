-- ===== src/Xhttp/Path.antt =====
-- Paths of src/common/transport/xhttp.rs: `normalized_path` and `parse_path`.
pub mod Parsed
use ruproxy.Text.{split_once, trim_end_matches, trim_start_matches}
use ruproxy.Bytes.{Bytes, bytes_eq}
use ruproxy.Prelude.{ℕ, Bool, ◌||◌, Option, none, some, [], ◌∷◌, ◌++◌, ◌==◌, length, if◌then◌else◌}

abbrev pub is_slash : ℕ → Bool
is_slash c = c == b'/'

-- `XhttpConfig`
pub record XhttpConfig : Type 0 where
  pub path : Bytes
  pub host : Option Bytes

abbrev pub with_slash : Bytes → Bytes
with_slash [] = b'/' ∷ []
with_slash (c ∷ p) = if c == b'/' then c ∷ p else b'/' ∷ c ∷ p

unfoldable pub normalized_path : Bytes → Bytes
normalized_path path = with_slash (trim_end_matches is_slash path) ++ (b'/' ∷ [])

-- `strip_prefix`
unfoldable pub strip_prefix : Bytes → Bytes → Option Bytes
strip_prefix [] s = some s
strip_prefix (p ∷ ps) [] = none
strip_prefix (p ∷ ps) (c ∷ s) = let rest = strip_prefix ps s in if p == c then rest else none

-- `filter(|s| !s.is_empty())`
abbrev pub non_empty : Bytes → Option Bytes
non_empty s = if length s == 0 then none else some s

-- The session and the number, from `splitn(2, '/')`.
abbrev pub session_and_seq : Bytes → Option Bytes × Option Bytes
session_and_seq rest = elim (split_once b'/' rest) [
  | none ↦ (non_empty rest, none)
  | some (session_id, seq) ↦ (non_empty session_id, non_empty seq)
]

abbrev pub below_base : Bytes → Option Bytes → Option (Option Bytes × Option Bytes)
below_base req_path none = none
below_base req_path (some s) =
    let rest = trim_start_matches is_slash s in
    some (if length rest == 0 then (none, none) else session_and_seq rest)

unfoldable pub parse_path : Bytes → Bytes → Option (Option Bytes × Option Bytes)
parse_path req_path base_path =
    if bytes_eq req_path (trim_end_matches is_slash base_path) || bytes_eq req_path base_path
    then some (none, none)
    else below_base req_path (strip_prefix base_path req_path)
