-- ===== src/Vless/Uuid.antt =====
-- `parse_uuid` of src/vless/protocol.rs.
use ruproxy.Bytes.{Bytes}
use ruproxy.Prelude.{
  ℕ, ◌+◌, ◌-◌, ◌*◌, Bool, false, ◌&&◌, Option, none, some, [], ◌∷◌, ◌==◌, ltb, leb, length,
  if◌then◌else◌,
}
use ruproxy.Io.{
  Result, err, ok, invalid_uuid, index_out_of_range, and_then, or_fault, invalid_uuid_hex,
}

abbrev pub without_dashes : Bytes → Bytes
without_dashes [] = []
without_dashes (c ∷ s) = if c == b'-' then without_dashes s else c ∷ without_dashes s

-- The value of a digit of base 16.
abbrev pub hex_value : ℕ → Option ℕ
hex_value c =
    if leb b'0' c && leb c b'9'
    then some (c - b'0')
    else if leb b'a' c && leb c b'f'
    then some (c - b'a' + 10)
    else if leb b'A' c && leb c b'F'
    then some (c - b'A' + 10)
    else none

abbrev pub two_digits : Option ℕ → Option ℕ → Option ℕ
two_digits (some hi) (some lo) = some (hi * 16 + lo)
two_digits _ _ = none

-- `u8::from_str_radix` of two bytes: a plus sign may stand in front of one digit.
abbrev pub from_str_radix : ℕ → ℕ → Option ℕ
from_str_radix a b = if a == b'+' then hex_value b else two_digits (hex_value a) (hex_value b)

-- A slice must not end within a character: a byte that goes on one comes next.
abbrev pub within_char : Bytes → Bool
within_char [] = false
within_char (c ∷ s) = leb 0x80 c && ltb c 0xc0

unfoldable pub parse_pairs : Bytes → Result Bytes
parse_pairs [] = ok []
parse_pairs (a ∷ []) = err invalid_uuid
parse_pairs (a ∷ b ∷ rest) =
    let more = parse_pairs rest in
    if within_char rest
    then err index_out_of_range
    else and_then (or_fault invalid_uuid_hex (from_str_radix a b))
        (λ v. and_then more (λ vs. ok (v ∷ vs)))

unfoldable pub parse_uuid : Bytes → Result Bytes
parse_uuid s =
    if length (without_dashes s) == 32 then parse_pairs (without_dashes s) else err invalid_uuid
