-- ===== src/Reality/Verify/Record.antt =====
-- The fields of a ClientHello record, where `verify_reality_client` looks for them.
use ruproxy.Prelude.{
  ◌+◌, ◌≡◌, sym, ap, ap₂, ◌∙◌, [], ◌∷◌, ◌++◌, length, take, drop, get_or, arith, append_assoc,
  length-append, drop-append, get_or-append, take-append, replicate, get_or-append_left,
}
use ruproxy.Bytes.{Bytes}
use ruproxy.Reality.Hello.Parts.{slice-append}
use ruproxy.Reality.Verify.{random, session_id, cleared}

-- Up to the random: the rest of the record's header, and the length and the version of the message.
abbrev pub head : Bytes → Bytes → Bytes
head hdr msg = 0x16 ∷ (hdr ++ (0x01 ∷ msg))

abbrev pub hello : Bytes → Bytes → Bytes → Bytes → Bytes → Bytes
hello hdr msg rnd sid tail = head hdr msg ++ (rnd ++ (32 ∷ (sid ++ tail)))

abbrev pub zeros : Bytes
zeros = replicate 32 0

module _ (hdr msg rnd sid tail : Bytes) (hdr_len : length hdr ≡ 4) (msg_len : length msg ≡ 5)
    (rnd_len : length rnd ≡ 32) (sid_len : length sid ≡ 32) where
  abbrev behind : Bytes
  behind = rnd ++ (32 ∷ (sid ++ tail))

  length-head : length (head hdr msg) ≡ 11
  length-head = omega (arith, length-append hdr (0x01 ∷ msg))

  pub length-hello : length (hello hdr msg rnd sid tail) ≡ 76 + length tail
  length-hello = omega (
    arith,
    length-head,
    length-append (head hdr msg) behind,
    length-append rnd (32 ∷ (sid ++ tail)),
    length-append sid tail,
  )

  pub hello_type : get_or (hello hdr msg rnd sid tail) 5 0 ≡ 0x01
  hello_type =
      get_or-append_left 5 (head hdr msg) behind 0 (omega (arith, length-head))
      ∙ get_or-append 4 0 hdr (0x01 ∷ msg) 0 hdr_len

  pub hello_sid_len : get_or (hello hdr msg rnd sid tail) 43 0 ≡ 32
  hello_sid_len =
      get_or-append 11 32 (head hdr msg) behind 0 length-head
      ∙ get_or-append 32 0 rnd (32 ∷ (sid ++ tail)) 0 rnd_len

  pub random-hello : random (hello hdr msg rnd sid tail) ≡ rnd
  random-hello =
      slice-append (head hdr msg) behind 11 0 32 length-head
      ∙ take-append 32 rnd (32 ∷ (sid ++ tail)) rnd_len

  pub session_id-hello : session_id (hello hdr msg rnd sid tail) ≡ sid
  session_id-hello =
      slice-append (head hdr msg) behind 11 33 32 length-head
      ∙ slice-append rnd (32 ∷ (sid ++ tail)) 32 1 32 rnd_len
      ∙ take-append 32 sid tail sid_len

  -- The record without its first five bytes.
  abbrev message : Bytes
  message = (0x01 ∷ msg) ++ (rnd ++ (32 ∷ []))

  pub drop_header : drop 5 (hello hdr msg rnd sid tail) ≡ message ++ (sid ++ tail)
  drop_header =
      ap (drop 4) (append_assoc hdr (0x01 ∷ msg) behind)
      ∙ drop-append 4 0 hdr ((0x01 ∷ msg) ++ behind) hdr_len
      ∙ sym (
          ap (λ x. 0x01 ∷ x)
            (append_assoc msg (rnd ++ (32 ∷ [])) (sid ++ tail)
              ∙ ap (λ x. msg ++ x) (append_assoc rnd (32 ∷ []) (sid ++ tail))))

  length-message : length message ≡ 39
  length-message = omega (arith, length-append msg (rnd ++ (32 ∷ [])), length-append rnd (32 ∷ []))

  pub cleared-hello : cleared (hello hdr msg rnd sid tail) ≡ message ++ (zeros ++ tail)
  cleared-hello =
      ap (λ x. take 39 x ++ (zeros ++ drop 71 x)) drop_header
      ∙ ap₂ (λ x y. x ++ (zeros ++ y)) (take-append 39 message (sid ++ tail) length-message)
          (drop-append 39 32 message (sid ++ tail) length-message
            ∙ drop-append 32 0 sid tail sid_len)

  pub hello_front : hello hdr msg rnd sid tail ≡ (head hdr msg ++ (rnd ++ (32 ∷ sid))) ++ tail
  hello_front = sym (
      append_assoc (head hdr msg) (rnd ++ (32 ∷ sid)) tail
      ∙ ap (λ x. head hdr msg ++ x) (append_assoc rnd (32 ∷ sid) tail))

  pub length-front : length (head hdr msg ++ (rnd ++ (32 ∷ sid))) ≡ 76
  length-front = omega (
    arith,
    length-head,
    length-append (head hdr msg) (rnd ++ (32 ∷ sid)),
    length-append rnd (32 ∷ sid),
  )
