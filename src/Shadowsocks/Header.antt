-- ===== src/Shadowsocks/Header.antt =====
-- The request and response headers of src/shadowsocks/protocol.rs, in plain text.
pub mod Parsed
use ruproxy.Bytes.{Bytes, u64_bytes, be_onto, be16}
use ruproxy.Io.{
  Result, Reader, Fault, err, ok, timestamp_skew, header_too_short, wrong_stream_type, and_then,
  truncated, missing_padding_length, done, truncated_padding, lift, bail, bad_atyp,
}
use ruproxy.Prelude.{
  ℕ, zero, suc, ◌+◌, ◌-◌, ◌*◌, ◌/◌, ◌%◌, ◌^◌, ◌≤◌, ◌<◌, ◌≡◌, ◌≢◌, refl, sym, ap, ap₂, ◌∙◌, subst,
  Bool, true, false, not, ◌&&◌, ◌||◌, Option, none, some, List, [], ◌∷◌, ◌++◌, ◌==◌, ltb, leb,
  length, take, drop, get_or, if◌then◌else◌, arith, All, ◌⊎◌, inl, inr, min, max, bit_and, bit_or,
  bit_xor, ◌↔◌, append_assoc, append-nil, length-append, Bool-cases,
}
use ruproxy.Io.{◌>>=◌, ◌>>◌}
use ruproxy.Target.{ipv4_of, ipv6_of, target_text}
use ruproxy.Text.{ipv4_text, ipv6_text, from_utf8}

abbrev pub stream_type_request : ℕ
stream_type_request = 0

abbrev pub stream_type_response : ℕ
stream_type_response = 1

abbrev pub max_timestamp_diff : ℕ
max_timestamp_diff = 30

abbrev pub abs_diff : ℕ → ℕ → ℕ
abs_diff a b = (a - b) + (b - a)

-- `check_timestamp`, at the time `now`.
unfoldable pub check_timestamp : ℕ → ℕ → Result (Unit {0})
check_timestamp now ts =
    if ltb max_timestamp_diff (abs_diff ts now) then err timestamp_skew else ok tt

-- `remaining() < n`, then `copy_to_slice`.
unfoldable pub copy : ℕ → Fault → Reader Bytes
copy n e s = if ltb (length s) n then err e else ok (take n s, drop n s)

-- `parse_address`, the match on the type.
unfoldable pub parse_host : ℕ → Reader Bytes
parse_host atyp =
    if atyp == 0x01
    then (do b ← copy 4 truncated; done (ipv4_text (ipv4_of b)))
    else if atyp == 0x03
    then (do len ← copy 1 truncated; b ← copy (get_or len 0 0) truncated; lift (from_utf8 b))
    else if atyp == 0x04
    then (do b ← copy 16 truncated; done (b'[' ∷ (ipv6_text (ipv6_of b) ++ (b']' ∷ []))))
    else bail bad_atyp

unfoldable pub parse_address : Reader Bytes
parse_address = do
  atyp ← copy 1 truncated
  host ← parse_host (get_or atyp 0 0)
  port ← copy 2 truncated
  done (target_text host (be16 (get_or port 0 0) (get_or port 1 0)))

-- `parse_request_header`, from the address on: the padding is skipped.
unfoldable pub parse_padded : Reader Bytes
parse_padded = do
  addr ← parse_address
  padding_len ← copy 2 missing_padding_length
  padding ← copy (be16 (get_or padding_len 0 0) (get_or padding_len 1 0)) truncated_padding
  done addr

unfoldable pub parse_request_header : ℕ → Bytes → ℕ → Result Bytes
parse_request_header now data' expected_type =
    if ltb (length data') 18
    then err header_too_short
    else if not (get_or data' 0 0 == expected_type)
    then err wrong_stream_type
    else and_then (check_timestamp now (be_onto 0 (take 8 (drop 1 data'))))
        λ _. and_then (parse_padded (drop 9 data')) λ r. ok r.0

unfoldable pub parse_response_header : ℕ → Bytes → ℕ → Result Bytes
parse_response_header now data' key_len =
    if ltb (length data') (1 + 8 + key_len)
    then err header_too_short
    else if not (get_or data' 0 0 == stream_type_response)
    then err wrong_stream_type
    else and_then (check_timestamp now (be_onto 0 (take 8 (drop 1 data'))))
        λ _. ok (take key_len (drop 9 data'))

unfoldable pub build_response_header : ℕ → Bytes → Bytes
build_response_header now request_salt = stream_type_response ∷ (u64_bytes now ++ request_salt)
