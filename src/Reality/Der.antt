-- ===== src/Reality/Der.antt =====
-- The DER of a certificate in src/vless/tls/reality.rs: lengths, and the signature that is put in.
pub mod Decoded
pub mod Replaced
use ruproxy.Prelude.{
  ℕ, zero, suc, ◌+◌, ◌-◌, ◌*◌, ◌/◌, ◌%◌, Bool, not, ◌&&◌, ◌||◌, [], ◌∷◌, ◌++◌, ◌==◌, ltb, leb,
  length, take, drop, get_or, if◌then◌else◌, bit_and, bit_or,
}
use ruproxy.Bytes.{Bytes}
use ruproxy.Io.{
  Result, ok, err, and_then, not_sequence, der_incomplete, not_bit_string, der_bounds,
  der_bad_length, index_out_of_range,
}

-- `len = (len << 8) | b`, for each of the bytes.
unfoldable pub shift_or : ℕ → Bytes → ℕ
shift_or len [] = len
shift_or len (b ∷ bs) = shift_or (bit_or (len * 256) b) bs

-- The length at `pos`, and the bytes it takes.
unfoldable pub der_decode_length : Bytes → ℕ → Result (ℕ × ℕ)
der_decode_length data' pos =
    let first : ℕ = get_or data' pos 0 in
    let n : ℕ = bit_and first 0x7f in
    if leb (length data') pos
    then err der_bounds
    else if ltb first 0x80
    then ok (first, 1)
    else if (n == 0 || ltb 4 n) || ltb (length data') (pos + 1 + n)
    then err der_bad_length
    else ok (shift_or 0 (take n (drop (pos + 1) data')), 1 + n)

unfoldable pub der_tlv_lens : Bytes → ℕ → Result (ℕ × ℕ)
der_tlv_lens data' pos =
    if leb (length data') (pos + 1)
    then err der_bounds
    else and_then (der_decode_length data' (pos + 1)) λ r. ok (1 + r.1 + r.0, r.0)

unfoldable pub der_tlv_content_start : Bytes → ℕ → Result ℕ
der_tlv_content_start data' pos =
    and_then (der_decode_length data' (pos + 1)) λ r. ok (pos + 1 + r.1)

-- The length field of `der_encode_tlv`.
unfoldable pub length_field : ℕ → Bytes
length_field len =
    if ltb len 0x80
    then len ∷ []
    else if ltb len 0x100
    then 0x81 ∷ len ∷ []
    else if ltb len 0x10000
    then 0x82 ∷ (len / 256 % 256) ∷ (len % 256) ∷ []
    else 0x83 ∷ (len / 65536 % 256) ∷ (len / 256 % 256) ∷ (len % 256) ∷ []

abbrev pub der_encode_tlv : ℕ → Bytes → Bytes
der_encode_tlv tag content = tag ∷ (length_field (length content) ++ content)

-- `Vec::splice`, which panics where the range ends behind the vector.
abbrev pub splice : Bytes → ℕ → ℕ → Bytes → Result Bytes
splice xs from to new =
    if ltb (length xs) to then err index_out_of_range else ok (take from xs ++ (new ++ drop to xs))

-- The length field of `der_fix_outer_sequence_length`.
unfoldable pub outer_length_field : ℕ → Bytes
outer_length_field len =
    if ltb len 0x80
    then len ∷ []
    else if ltb len 0x100
    then 0x81 ∷ len ∷ []
    else 0x82 ∷ (len / 256 % 256) ∷ (len % 256) ∷ []

unfoldable pub der_fix_outer_sequence_length : Bytes → Result Bytes
der_fix_outer_sequence_length der =
    if not (get_or der 0 0 == 0x30)
    then err not_sequence
    else and_then (der_tlv_content_start der 0)
        λ start. splice der 1 start (outer_length_field (length der - start))

-- The third field is replaced.
unfoldable pub replace_third : Bytes → Bytes → ℕ → ℕ → Result Bytes
replace_third der new_sig pos total =
    if not (get_or der pos 0 == 0x03)
    then err not_bit_string
    else and_then (splice der pos (pos + total) (der_encode_tlv 0x03 (0x00 ∷ new_sig)))
        der_fix_outer_sequence_length

-- The loop over the fields, with the number of those before the third.
unfoldable pub replace_from : Bytes → Bytes → ℕ → ℕ → Result Bytes
replace_from der new_sig zero pos =
    if leb (length der) pos
    then err der_incomplete
    else and_then (der_tlv_lens der pos) λ lens. replace_third der new_sig pos lens.0
replace_from der new_sig (suc k) pos =
    if leb (length der) pos
    then err der_incomplete
    else and_then (der_tlv_lens der pos) λ lens. replace_from der new_sig k (pos + lens.0)

unfoldable pub replace_signature_in_cert_der : Bytes → Bytes → Result Bytes
replace_signature_in_cert_der der new_sig =
    if leb (length der) 0 || not (get_or der 0 0 == 0x30)
    then err not_sequence
    else and_then (der_tlv_content_start der 0) (replace_from der new_sig 2)
