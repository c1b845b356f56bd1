-- ===== src/Text/Number.antt =====
-- Integers as text: `{n}`, `{n:x}` and `str::parse` to an unsigned integer.
use ruproxy.Prelude.{
  ℕ, zero, suc, ◌+◌, ◌-◌, ◌*◌, ◌/◌, ◌%◌, ◌&&◌, [], ◌∷◌, ◌++◌, leb, ltb, ◌==◌, if◌then◌else◌,
}
use ruproxy.Bytes.{Bytes}
use ruproxy.Io.{Result, ok, err, parse_int}

-- At most `fuel` digits: twenty are enough for a u64.
unfoldable pub digits_in : ℕ → ℕ → Bytes
digits_in zero n = []
digits_in (suc fuel) n =
    let front = digits_in fuel (n / 10) in
    if ltb n 10 then (b'0' + n) ∷ [] else front ++ ((b'0' + n % 10) ∷ [])

unfoldable pub decimal : ℕ → Bytes
unfolding digits_in
decimal n = digits_in 20 n

hex_digit : ℕ → ℕ
hex_digit d = if ltb d 10 then b'0' + d else b'a' + (d - 10)

hex_in : ℕ → ℕ → Bytes
hex_in zero n = []
hex_in (suc fuel) n =
    let front = hex_in fuel (n / 16) in
    if ltb n 16 then hex_digit n ∷ [] else front ++ (hex_digit (n % 16) ∷ [])

-- A u16 in lower-case hexadecimal.
unfoldable pub hex16 : ℕ → Bytes
unfolding hex_in hex_digit
hex16 n = hex_in 4 n

-- The digits of `parse`: an overflow of the type, or any other character, is an error.
unfoldable pub parse_digits : ℕ → ℕ → Bytes → Result ℕ
parse_digits limit acc [] = ok acc
parse_digits limit acc (c ∷ cs) =
    let rest = parse_digits limit (acc * 10 + (c - b'0')) cs in
    if leb b'0' c && leb c b'9' && ltb (acc * 10 + (c - b'0')) limit then rest else err parse_int

unfoldable pub parse_nonempty : ℕ → Bytes → Result ℕ
parse_nonempty limit [] = err parse_int
parse_nonempty limit (c ∷ cs) = parse_digits limit 0 (c ∷ cs)

-- `s.parse::<uN>()` for `limit = 2^N`: one leading `+` is allowed.
unfoldable pub parse_unsigned : ℕ → Bytes → Result ℕ
unfolding parse_nonempty
parse_unsigned limit [] = err parse_int
parse_unsigned limit (c ∷ cs) =
    if c == b'+' then parse_nonempty limit cs else parse_digits limit 0 (c ∷ cs)
