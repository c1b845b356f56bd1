-- ===== src/Xhttp/Path/Parsed.antt =====
-- `parse_path` of src/common/transport/xhttp.rs on the paths that a client requests.
use ruproxy.Bytes.{Bytes, bytes_eq, bytes_eq_iff}
use ruproxy.Text.{trim_start_matches, split_once, trim_end_matches}
use ruproxy.Xhttp.Path.{strip_prefix, parse_path, normalized_path, is_slash, session_and_seq}
use ruproxy.Prelude.{
  ℕ, ◌≤◌, ◌<◌, ◌≡◌, ◌≢◌, refl, ap, Bool, false, Option, none, some, [], ◌∷◌, ◌++◌, length, arith,
  All, inl, inr, length-append, Bool-cases, ne→==, ==_refl,
}

-- The path below the base: a session, and perhaps a number.
abbrev pub below : Bytes → Option Bytes → Bytes
below session_id none = session_id
below session_id (some seq) = session_id ++ (b'/' ∷ seq)

abbrev pub NoSlash : Bytes → Type 0
NoSlash = All (λ c. c ≢ b'/')

-- A number has a character at least.
abbrev pub IsSeq : Option Bytes → Type 0
IsSeq none = Unit
IsSeq (some seq) = 0 < length seq

strip_prefix-append : (base s : Bytes) → strip_prefix base (base ++ s) ≡ some s
unfolding strip_prefix
strip_prefix-append [] s = refl
strip_prefix-append (c ∷ base) s = rw (==_refl c) (strip_prefix-append base s)

length-trim_end_matches : (p : ℕ → Bool) (s : Bytes) → length (trim_end_matches p s) ≤ length s
unfolding trim_end_matches
length-trim_end_matches p [] = omega arith
length-trim_end_matches p (c ∷ s) = ground (arith, length-trim_end_matches p s)

longer : (a b : Bytes) → length b < length a → bytes_eq a b ≡ false
longer a b h = elim (Bool-cases (bytes_eq a b)) [
  | inl same ↦ absurd (omega (arith, ap length ((bytes_eq_iff a b).0 same)))
  | inr differ ↦ differ
]

split_once-NoSlash : (s : Bytes) → NoSlash s → split_once b'/' s ≡ none
unfolding split_once
split_once-NoSlash [] h = refl
split_once-NoSlash (c ∷ s) h = rw (ne→== c b'/' h.0) (rw (split_once-NoSlash s h.1) refl)

split_once-append : (s t : Bytes) → NoSlash s → split_once b'/' (s ++ (b'/' ∷ t)) ≡ some (s, t)
unfolding split_once
split_once-append [] t h = refl
split_once-append (c ∷ s) t h = rw (ne→== c b'/' h.0) (rw (split_once-append s t h.1) refl)

session_and_seq-below :
    (session_id : Bytes) (seq : Option Bytes)
    → NoSlash session_id
    → 0 < length session_id
    → IsSeq seq
    → session_and_seq (below session_id seq) ≡ (some session_id, seq)
session_and_seq-below session_id none h full q =
    rw (split_once-NoSlash session_id h, session_and_seq)
      (rw (ne→== (length session_id) 0 (omega arith)) refl)
session_and_seq-below session_id (some seq) h full q =
    rw (split_once-append session_id seq h, session_and_seq)
      (rw (ne→== (length session_id) 0 (omega arith), ne→== (length seq) 0 (omega arith)) refl)

trim_start_matches-below :
    (session_id : Bytes) (seq : Option Bytes)
    → NoSlash session_id
    → 0 < length session_id
    → trim_start_matches is_slash (below session_id seq) ≡ below session_id seq
unfolding trim_start_matches
trim_start_matches-below [] seq h full = absurd (omega arith)
trim_start_matches-below (c ∷ s) none h full = rw (ne→== c b'/' h.0) refl
trim_start_matches-below (c ∷ s) (some q) h full = rw (ne→== c b'/' h.0) refl

below-length :
    (session_id : Bytes) (seq : Option Bytes)
    → 0 < length session_id
    → 0 < length (below session_id seq)
below-length session_id none full = full
below-length session_id (some q) full = omega (arith, length-append session_id (b'/' ∷ q))

-- Whatever path is configured, the path of a request that goes on behind the normalized one with a
-- session id without slashes, and perhaps a slash and a number that is not empty, is parsed to
-- that session and that number.
pub parse_path-below :
    (path session_id : Bytes) (seq : Option Bytes)
    → NoSlash session_id
    → 0 < length session_id
    → IsSeq seq
    → parse_path (normalized_path path ++ below session_id seq) (normalized_path path)
      ≡ some (some session_id, seq)
unfolding parse_path
parse_path-below path session_id seq h full q =
    let base = normalized_path path in
    let rest = below session_id seq in
    let some_rest = below-length session_id seq full in
    let size = length-append base rest in
    rw
      (
        longer (base ++ rest) (trim_end_matches is_slash base)
            (omega (arith, length-trim_end_matches is_slash base)),
        longer (base ++ rest) base (omega arith),
      )
      (rw (strip_prefix-append base rest) (
        rw (trim_start_matches-below session_id seq h full) (
          rw (ne→== (length rest) 0 (omega arith))
            (ap some (session_and_seq-below session_id seq h full q)))))
