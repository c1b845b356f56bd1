-- ===== src/Reality/Der/Replaced.antt =====
-- `replace_signature_in_cert_der` on a certificate: a sequence of three parts.
use ruproxy.Prelude.{
  ℕ, suc, ◌+◌, ◌-◌, ◌^◌, ◌<◌, ◌≡◌, refl, sym, ap, ◌∙◌, subst, [], ◌∷◌, ◌++◌, length, get_or, arith,
  append_assoc, append-nil, length-append, lt→leb, drop-length_append, le→ltb, take-length_append,
  drop-append,
}
use ruproxy.Bytes.{Bytes}
use ruproxy.Io.{Result, ok}
use ruproxy.Reality.Der.{
  der_tlv_content_start, length_field, outer_length_field, der_encode_tlv, splice,
  der_fix_outer_sequence_length, replace_third, replace_from, replace_signature_in_cert_der,
}
use ruproxy.Reality.Der.Decoded.{
  get_or-here, der_tlv_lens-der_encode_tlv, der_tlv_content_start-der_encode_tlv,
  der_decode_length-length_field,
}

-- `signatureValue` with no unused bits.
abbrev pub bit_string : Bytes → Bytes
bit_string signature = der_encode_tlv 0x03 (0x00 ∷ signature)

-- `Certificate`: what is signed, the algorithm and the signature.
abbrev pub certificate : Bytes → Bytes → Bytes → Bytes
certificate tbs algorithm signature = der_encode_tlv 0x30 (tbs ++ (algorithm ++ signature))

outer_length_field_lem : (n : ℕ) → n < 2 ^ 16 → outer_length_field n ≡ length_field n
unfolding outer_length_field length_field
outer_length_field_lem n h = ground arith

splice_lem :
    (xs ys zs new : Bytes)
    → splice (xs ++ (ys ++ zs)) (length xs) (length xs + length ys) new ≡ ok (xs ++ (new ++ zs))
splice_lem xs ys zs new =
    let l = length-append xs (ys ++ zs) in
    let m = length-append ys zs in
    rw
      (
        le→ltb (length (xs ++ (ys ++ zs))) (length xs + length ys) (omega arith),
        take-length_append xs (ys ++ zs),
        drop-append (length xs) (length ys) xs (ys ++ zs) refl,
        drop-length_append ys zs,
      )
      refl

fix_by :
    (der : Bytes) (start : ℕ) {r : Bytes}
    → get_or der 0 0 ≡ 0x30
    → der_tlv_content_start der 0 ≡ ok start
    → splice der 1 start (outer_length_field (length der - start)) ≡ ok r
    → der_fix_outer_sequence_length der ≡ ok r
unfolding der_fix_outer_sequence_length
fix_by der start tag at spliced = rw (tag, at) spliced

-- The length that stood there may be any.
der_fix_outer_sequence_length_lem :
    (n : ℕ) (body : Bytes)
    → n < 2 ^ 24
    → length body < 2 ^ 16
    → der_fix_outer_sequence_length (0x30 ∷ (length_field n ++ body))
      ≡ ok (der_encode_tlv 0x30 body)
unfolding der_tlv_content_start
der_fix_outer_sequence_length_lem n body h k =
    let der = 0x30 ∷ (length_field n ++ body) in
    let start = 1 + length (length_field n) in
    let l = length-append (length_field n) body in
    let size : length der - start ≡ length body = omega (arith, l) in
    let at : der_tlv_content_start der 0 ≡ ok start =
      rw (der_decode_length-length_field (0x30 ∷ []) n body h) refl in
    fix_by der start refl at (
      splice_lem (0x30 ∷ []) (length_field n) body (outer_length_field (length der - start))
      ∙ ap (λ x. ok (0x30 ∷ (x ++ body)))
          (ap outer_length_field size ∙ outer_length_field_lem (length body) k))

third_by :
    (der sig : Bytes) (pos total : ℕ) {r : Bytes}
    → get_or der pos 0 ≡ 0x03
    → splice der pos (pos + total) (bit_string sig) ≡ ok r
    → replace_third der sig pos total ≡ der_fix_outer_sequence_length r
unfolding replace_third
third_by der sig pos total tag spliced = rw (tag, spliced) refl

replace_from_step :
    (pre : Bytes) (tag : ℕ) (content rest sig : Bytes) (k : ℕ)
    → length content < 2 ^ 24
    → replace_from (pre ++ (der_encode_tlv tag content ++ rest)) sig (suc k) (length pre)
      ≡ replace_from
          (pre ++ (der_encode_tlv tag content ++ rest))
          sig
          k
          (length (pre ++ der_encode_tlv tag content))
unfolding replace_from
replace_from_step pre tag content rest sig k h =
    let l = length-append pre (der_encode_tlv tag content ++ rest) in
    let at : length pre + length (der_encode_tlv tag content)
        ≡ length (pre ++ der_encode_tlv tag content) =
      omega (arith, length-append pre (der_encode_tlv tag content)) in
    rw
      (
        lt→leb (length (pre ++ (der_encode_tlv tag content ++ rest))) (length pre)
            (omega (arith, l)),
        der_tlv_lens-der_encode_tlv pre tag content rest h,
      )
      (ap (replace_from (pre ++ (der_encode_tlv tag content ++ rest)) sig k) at)

replace_from_last :
    (pre content sig : Bytes)
    → length content < 2 ^ 24
    → replace_from (pre ++ der_encode_tlv 0x03 content) sig 0 (length pre)
      ≡ der_fix_outer_sequence_length (pre ++ bit_string sig)
unfolding replace_from
replace_from_last pre content sig h =
    let old = der_encode_tlv 0x03 content in
    let l = length-append pre old in
    let lens = (rw (append-nil old) at (der_tlv_lens-der_encode_tlv pre 0x03 content [] h)) in
    let spliced =
      (rw (append-nil old, append-nil (bit_string sig)) at
        (splice_lem pre old [] (bit_string sig))) in
    rw (lt→leb (length (pre ++ old)) (length pre) (omega (arith, l)), lens)
      (third_by (pre ++ old) sig (length pre) (length old)
        (get_or-here pre 0x03 (length_field (length content) ++ content)) spliced)

replace_from-fields :
    (head tbs algorithm old sig : Bytes) (tag1 tag2 : ℕ)
    → length tbs < 2 ^ 24
    → length algorithm < 2 ^ 24
    → length old < 2 ^ 24
    → replace_from
        (head
          ++ (der_encode_tlv tag1 tbs
              ++ (der_encode_tlv tag2 algorithm ++ der_encode_tlv 0x03 old)))
        sig
        2
        (length head)
      ≡ der_fix_outer_sequence_length
          (head ++ (der_encode_tlv tag1 tbs ++ (der_encode_tlv tag2 algorithm ++ bit_string sig)))
replace_from-fields head tbs algorithm old sig tag1 tag2 h1 h2 h3 =
    let t = der_encode_tlv tag1 tbs in
    let a = der_encode_tlv tag2 algorithm in
    let s = der_encode_tlv 0x03 old in
    let e1 = append_assoc head t (a ++ s) in
    let e2 = append_assoc (head ++ t) a s in
    replace_from_step head tag1 tbs (a ++ s) sig 1 h1
    ∙ ap (λ x. replace_from x sig 1 (length (head ++ t))) (sym e1)
    ∙ replace_from_step (head ++ t) tag2 algorithm s sig 0 h2
    ∙ ap (λ x. replace_from x sig 0 (length ((head ++ t) ++ a))) (sym e2)
    ∙ replace_from_last ((head ++ t) ++ a) old sig h3
    ∙ ap der_fix_outer_sequence_length
        (append_assoc (head ++ t) a (bit_string sig) ∙ append_assoc head t (a ++ bit_string sig))

replace_by :
    (der sig : Bytes) (start : ℕ) {r : Result Bytes}
    → get_or der 0 0 ≡ 0x30
    → 0 < length der
    → der_tlv_content_start der 0 ≡ ok start
    → replace_from der sig 2 start ≡ r
    → replace_signature_in_cert_der der sig ≡ r
unfolding replace_signature_in_cert_der
replace_by der sig start tag some' at replaced = rw (tag, lt→leb (length der) 0 some', at) replaced

length-der_encode_tlv :
    (tag : ℕ) (content : Bytes) → length content < length (der_encode_tlv tag content)
length-der_encode_tlv tag content =
    omega (arith, length-append (length_field (length content)) content)

-- Replaced
pub replace_signature_in_cert_der-certificate :
    (tag1 tag2 : ℕ) (tbs algorithm old new : Bytes)
    → length (der_encode_tlv tag1 tbs ++ (der_encode_tlv tag2 algorithm ++ der_encode_tlv 0x03 old))
      < 2 ^ 24
    → length (der_encode_tlv tag1 tbs ++ (der_encode_tlv tag2 algorithm ++ bit_string new)) < 2 ^ 16
    → replace_signature_in_cert_der
        (certificate
          (der_encode_tlv tag1 tbs)
          (der_encode_tlv tag2 algorithm)
          (der_encode_tlv 0x03 old))
        new
      ≡ ok (certificate (der_encode_tlv tag1 tbs) (der_encode_tlv tag2 algorithm) (bit_string new))
replace_signature_in_cert_der-certificate tag1 tag2 tbs algorithm old new h k =
    let t = der_encode_tlv tag1 tbs in
    let a = der_encode_tlv tag2 algorithm in
    let s = der_encode_tlv 0x03 old in
    let body = t ++ (a ++ s) in
    let head = 0x30 ∷ length_field (length body) in
    let l1 = length-append t (a ++ s) in
    let l2 = length-append a s in
    let m1 = length-der_encode_tlv tag1 tbs in
    let m2 = length-der_encode_tlv tag2 algorithm in
    let m3 = length-der_encode_tlv 0x03 old in
    let start : der_tlv_content_start (der_encode_tlv 0x30 body) 0 ≡ ok (length head) =
      subst (λ x. der_tlv_content_start x 0 ≡ ok (length head))
        (append-nil (der_encode_tlv 0x30 body))
        (der_tlv_content_start-der_encode_tlv 0x30 body [] h) in
    replace_by (certificate t a s) new (length head) refl (omega arith) start (
      replace_from-fields head tbs algorithm old new tag1 tag2 (omega (arith, l1, l2, m1))
        (omega (arith, l1, l2, m2)) (omega (arith, l1, l2, m3))
      ∙ der_fix_outer_sequence_length_lem (length body) (t ++ (a ++ bit_string new)) h k)
