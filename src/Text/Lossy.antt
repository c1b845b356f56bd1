-- ===== src/Text/Lossy.antt =====
-- `String::from_utf8_lossy`: every longest start of a character that does not go on, and every byte
-- that starts none, is replaced by U+FFFD.
pub mod Laws
use ruproxy.Prelude.{ℕ, zero, suc, true, false, none, some, [], ◌∷◌, ◌++◌}
use ruproxy.Bytes.{Bytes}
use ruproxy.Text.Utf8.{utf8_lead, within}

-- U+FFFD in UTF-8.
abbrev pub replaced : Bytes
replaced = 0xef ∷ 0xbf ∷ 0xbd ∷ []

-- A byte that is not inside a character, and the reading of the bytes behind it.
unfoldable pub lossy_start : ℕ → (ℕ → ℕ → ℕ → Bytes → Bytes) → Bytes
lossy_start b next = elim (utf8_lead b) [
  | none ↦ replaced ++ next 0 0 0 []
  | some (n, lo, hi) ↦ next n lo hi (b ∷ [])
]

-- `n` bytes of the character that `begun` starts are missing; the first of them lies in a range.
unfoldable pub lossy_run : Bytes → ℕ → ℕ → ℕ → Bytes → Bytes
lossy_run [] zero lo hi begun = begun
lossy_run [] (suc n) lo hi begun = replaced
lossy_run (b ∷ bs) zero lo hi begun = begun ++ lossy_start b (lossy_run bs)
lossy_run (b ∷ bs) (suc n) lo hi begun = elim (within lo hi b) [
  | true ↦ lossy_run bs n 0x80 0xbf (begun ++ (b ∷ []))
  | false ↦ replaced ++ lossy_start b (lossy_run bs)
]

unfoldable pub from_utf8_lossy : Bytes → Bytes
from_utf8_lossy bs = lossy_run bs 0 0 0 []
