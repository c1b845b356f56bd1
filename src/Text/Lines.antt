-- ===== src/Text/Lines.antt =====
-- `str::lines` and `str::trim`, on the bytes of UTF-8.
use ruproxy.Bytes.{Bytes}
use mathlib.Core.List.{reverse}
use ruproxy.Prelude.{
  ℕ, zero, suc, Bool, ◌&&◌, ◌||◌, List, [], ◌∷◌, ◌==◌, leb, length, drop, get_or, if◌then◌else◌,
}

unfoldable pub at_front : ℕ → List Bytes → List Bytes
at_front x [] = (x ∷ []) ∷ []
at_front x (l ∷ ls) = (x ∷ l) ∷ ls

-- A line ends at a line feed, and a carriage return in front of it is not of the line.
unfoldable pub lines : Bytes → List Bytes
unfolding at_front
lines [] = []
lines (x ∷ xs) =
    let rest = lines xs in
    if x == 10 then [] ∷ rest else if x == 13 && get_or xs 0 0 == 10 then rest else at_front x rest

-- The characters of White_Space, by the length of their encoding.
unfoldable pub white1 : ℕ → Bool
white1 a = (leb 9 a && leb a 13) || a == 32

unfoldable pub white2 : ℕ → ℕ → Bool
white2 a b = a == 0xc2 && (b == 0x85 || b == 0xa0)

unfoldable pub white3 : ℕ → ℕ → ℕ → Bool
white3 a b c =
    (a == 0xe1 && b == 0x9a && c == 0x80)
    || (a == 0xe2
        && b == 0x80
        && ((leb 0x80 c && leb c 0x8a) || c == 0xa8 || c == 0xa9 || c == 0xaf))
    || (a == 0xe2 && b == 0x81 && c == 0x9f)
    || (a == 0xe3 && b == 0x80 && c == 0x80)

unfoldable pub white_front : Bytes → ℕ
unfolding white1 white2 white3
white_front s =
    if white1 (get_or s 0 0)
    then 1
    else if white2 (get_or s 0 0) (get_or s 1 0)
    then 2
    else if white3 (get_or s 0 0) (get_or s 1 0) (get_or s 2 0)
    then 3
    else 0

-- The same for the last character, on the reversed bytes.
unfoldable pub white_back : Bytes → ℕ
unfolding white1 white2 white3
white_back r =
    if white1 (get_or r 0 0)
    then 1
    else if white2 (get_or r 1 0) (get_or r 0 0)
    then 2
    else if white3 (get_or r 2 0) (get_or r 1 0) (get_or r 0 0)
    then 3
    else 0

-- Whitespace is dropped while there is any: at most `fuel` characters, and the length is enough.
unfoldable pub drop_white : (Bytes → ℕ) → ℕ → Bytes → Bytes
drop_white front zero s = s
drop_white front (suc fuel) s =
    let rest = drop_white front fuel (drop (front s) s) in if front s == 0 then s else rest

unfoldable pub trim : Bytes → Bytes
unfolding drop_white white_front white_back
trim s =
    let r = reverse (drop_white white_front (length s) s) in
    reverse (drop_white white_back (length r) r)
