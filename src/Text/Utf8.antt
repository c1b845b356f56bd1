-- ===== src/Text/Utf8.antt =====
-- `String::from_utf8`: the well-formed byte sequences of the Unicode standard.
use ruproxy.Prelude.{
  ℕ, zero, suc, Bool, true, false, ◌&&◌, Option, none, some, [], ◌∷◌, leb, ◌==◌, if◌then◌else◌,
}
use ruproxy.Bytes.{Bytes}
use ruproxy.Io.{Result, ok, err, invalid_utf8}

abbrev pub within : ℕ → ℕ → ℕ → Bool
within lo hi b = leb lo b && leb b hi

-- The continuation bytes that a leading byte asks for, and the range of the first of them.
unfoldable pub utf8_lead : ℕ → Option (ℕ × ℕ × ℕ)
utf8_lead b =
    if leb b 0x7f
    then some (0, 0, 0)
    else if within 0xc2 0xdf b
    then some (1, 0x80, 0xbf)
    else if b == 0xe0
    then some (2, 0xa0, 0xbf)
    else if b == 0xed
    then some (2, 0x80, 0x9f)
    else if within 0xe1 0xef b
    then some (2, 0x80, 0xbf)
    else if b == 0xf0
    then some (3, 0x90, 0xbf)
    else if within 0xf1 0xf3 b
    then some (3, 0x80, 0xbf)
    else if b == 0xf4
    then some (3, 0x80, 0x8f)
    else none

unfoldable pub utf8_run : ℕ → ℕ → ℕ → Bytes → Bool
utf8_run zero lo hi [] = true
utf8_run (suc n) lo hi [] = false
utf8_run zero lo hi (b ∷ bs) = elim (utf8_lead b) [
  | none ↦ false
  | some (n, lo', hi') ↦ utf8_run n lo' hi' bs
]
utf8_run (suc n) lo hi (b ∷ bs) = within lo hi b && utf8_run n 0x80 0xbf bs

unfoldable pub is_utf8 : Bytes → Bool
unfolding utf8_run utf8_lead
is_utf8 bs = utf8_run 0 0 0 bs

unfoldable pub from_utf8 : Bytes → Result Bytes
from_utf8 bs = if is_utf8 bs then ok bs else err invalid_utf8
