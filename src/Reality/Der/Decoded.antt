-- ===== src/Reality/Der/Decoded.antt =====
-- What the DER functions read from the front of a part, wherever it stands.
use ruproxy.Prelude.{
  ℕ, suc, ◌+◌, ◌*◌, ◌/◌, ◌%◌, ◌^◌, ◌<◌, ◌≡◌, refl, sym, ap, ap₂, ◌∙◌, ◌||◌, [], ◌∷◌, ◌++◌, ◌==◌,
  ltb, length, take, drop, get_or, if◌then◌else◌, arith, inl, inr, bit_and, append_assoc,
  length-append, Bool-cases, drop-append, lt→leb, le→ltb, ltb→lt,
}
use ruproxy.Bits.{bit_or_disjoint, zero-bit_or}
use ruproxy.Bytes.{Bytes}
use ruproxy.Io.{Result, ok, err, der_bad_length}
use ruproxy.Reality.Der.{
  shift_or, der_decode_length, der_tlv_lens, der_tlv_content_start, length_field, der_encode_tlv,
}

pub get_or-here : (pre : Bytes) (b : ℕ) (t : Bytes) → get_or (pre ++ (b ∷ t)) (length pre) 0 ≡ b
get_or-here [] b t = refl
get_or-here (x ∷ pre) b t = get_or-here pre b t

pub drop-behind : (pre : Bytes) (b : ℕ) (t : Bytes) → drop (length pre + 1) (pre ++ (b ∷ t)) ≡ t
drop-behind pre b t = drop-append (length pre) 1 pre (b ∷ t) refl

-- The length field whose first byte is `b`.
abbrev decode_at : ℕ → Bytes → Result (ℕ × ℕ)
decode_at b t =
    let n : ℕ = bit_and b 0x7f in
    if ltb b 0x80
    then ok (b, 1)
    else if (n == 0 || ltb 4 n) || ltb (length t) n
    then err der_bad_length
    else ok (shift_or 0 (take n t), 1 + n)

der_decode_length-front :
    (pre : Bytes) (b : ℕ) (t : Bytes)
    → der_decode_length (pre ++ (b ∷ t)) (length pre) ≡ decode_at b t
unfolding der_decode_length
der_decode_length-front pre b t =
    let l = length-append pre (b ∷ t) in
    let n = bit_and b 0x7f in
    let same : ltb (length (pre ++ (b ∷ t))) (length pre + 1 + n) ≡ ltb (length t) n =
      ground arith in
    rw
      (
        get_or-here pre b t,
        drop-behind pre b t,
        same,
        lt→leb (length (pre ++ (b ∷ t))) (length pre) (omega (arith, l)),
      )
      refl

shift_or_step : (a b : ℕ) (bs : Bytes) → b < 256 → shift_or a (b ∷ bs) ≡ shift_or (a * 256 + b) bs
unfolding shift_or
shift_or_step a b bs h = ap (λ x. shift_or x bs) (bit_or_disjoint 8 a b h)

shift_or_first : (b : ℕ) (bs : Bytes) → shift_or 0 (b ∷ bs) ≡ shift_or b bs
unfolding shift_or
shift_or_first b bs = ap (λ x. shift_or x bs) (zero-bit_or b)

shift_or2 : (a b : ℕ) → a < 256 → b < 256 → shift_or 0 (a ∷ b ∷ []) ≡ a * 256 + b
unfolding shift_or
shift_or2 a b h k = shift_or_first a (b ∷ []) ∙ shift_or_step a b [] k

shift_or3 :
    (a b c : ℕ)
    → a < 256
    → b < 256
    → c < 256
    → shift_or 0 (a ∷ b ∷ c ∷ []) ≡ (a * 256 + b) * 256 + c
unfolding shift_or
shift_or3 a b c h k l =
    shift_or_first a (b ∷ c ∷ [])
    ∙ shift_or_step a b (c ∷ []) k
    ∙ shift_or_step (a * 256 + b) c [] l

-- A length that is written is read back, with the size of its field.
pub der_decode_length-length_field :
    (pre : Bytes) (n : ℕ) (t : Bytes)
    → n < 2 ^ 24
    → der_decode_length (pre ++ (length_field n ++ t)) (length pre)
      ≡ ok (n, length (length_field n))
unfolding shift_or length_field
der_decode_length-length_field pre n t h = elim (Bool-cases (ltb n 0x80)) [
  | inl e ↦ rw e (der_decode_length-front pre n t ∙ rw e refl)
  | inr e ↦ elim (Bool-cases (ltb n 0x100)) [
    | inl e1 ↦
        rw (e, e1)
          (der_decode_length-front pre 0x81 (n ∷ t)
            ∙ (rw (le→ltb (suc (length t)) 1 (omega arith))
                (ap (λ x. ok (x, 2)) (shift_or_first n []))))
    | inr e1 ↦ elim (Bool-cases (ltb n 0x10000)) [
      | inl e2 ↦
          let small2 : n / 256 % 256 * 256 + n % 256 ≡ n = omega (arith, ltb→lt n 0x10000 e2) in
          rw (e, e1, e2)
            (der_decode_length-front pre 0x82 _
              ∙ (rw (le→ltb (suc (suc (length t))) 2 (omega arith)) (
                  ap (λ x. ok (x, 3))
                    (shift_or2 (n / 256 % 256) (n % 256) (omega arith) (omega arith) ∙ small2))))
      | inr e2 ↦
          let small3 : (n / 65536 % 256 * 256 + n / 256 % 256) * 256 + n % 256 ≡ n = omega arith in
          rw (e, e1, e2)
            (der_decode_length-front pre 0x83 _
              ∙ (rw (le→ltb (suc (suc (suc (length t)))) 3 (omega arith)) (
                  ap (λ x. ok (x, 4))
                    (shift_or3 (n / 65536 % 256) (n / 256 % 256) (n % 256) (omega arith)
                        (omega arith) (omega arith)
                      ∙ small3))))
    ]
  ]
]

length_field-positive : (n : ℕ) → 0 < length (length_field n)
unfolding length_field
length_field-positive n = ground arith

der_tlv_lens_at :
    (data' : Bytes) (pos n k : ℕ)
    → pos + 1 < length data'
    → der_decode_length data' (pos + 1) ≡ ok (n, k)
    → der_tlv_lens data' pos ≡ ok (1 + k + n, n)
unfolding der_tlv_lens
der_tlv_lens_at data' pos n k h e = rw (lt→leb (length data') (pos + 1) h, e) refl

-- A part that is written gives its own length and that of its content.
pub der_tlv_lens-der_encode_tlv :
    (pre : Bytes) (tag : ℕ) (content rest : Bytes)
    → length content < 2 ^ 24
    → der_tlv_lens (pre ++ (der_encode_tlv tag content ++ rest)) (length pre)
      ≡ ok (length (der_encode_tlv tag content), length content)
der_tlv_lens-der_encode_tlv pre tag content rest h =
    let field = length_field (length content) in
    let whole = pre ++ (der_encode_tlv tag content ++ rest) in
    let shape : (pre ++ (tag ∷ [])) ++ (field ++ (content ++ rest)) ≡ whole =
      append_assoc pre (tag ∷ []) (field ++ (content ++ rest))
      ∙ ap (λ x. pre ++ (tag ∷ x)) (sym (append_assoc field content rest)) in
    let at : length (pre ++ (tag ∷ [])) ≡ length pre + 1 = length-append pre (tag ∷ []) in
    let read =
      der_decode_length-length_field (pre ++ (tag ∷ [])) (length content) (content ++ rest) h in
    let total = length-append field content in
    let l1 = length-append pre (der_encode_tlv tag content ++ rest) in
    let l2 = length-append (der_encode_tlv tag content) rest in
    let some' = length_field-positive (length content) in
    der_tlv_lens_at whole (length pre) (length content) (length field) (omega arith)
      (ap₂ der_decode_length (sym shape) (sym at) ∙ read)
    ∙ ap (λ x. ok (x, length content)) (omega arith)

pub der_tlv_content_start-der_encode_tlv :
    (tag : ℕ) (content rest : Bytes)
    → length content < 2 ^ 24
    → der_tlv_content_start (der_encode_tlv tag content ++ rest) 0
      ≡ ok (suc (length (length_field (length content))))
unfolding der_tlv_content_start
der_tlv_content_start-der_encode_tlv tag content rest h =
    let field = length_field (length content) in
    let shape = append_assoc field content rest in
    rw (shape, der_decode_length-length_field (tag ∷ []) (length content) (content ++ rest) h)
      (ap (λ x. ok x) (omega arith))
