-- ===== src/Tuic/Proto/Consumed.antt =====
use native.Mathlib.Numerals.{add-one}
use ruproxy.Text.Laws.{from_utf8_inv}
use ruproxy.Prelude.{Bool-cases, ==_iff, ◌==◌, inl, ◌%◌, inr}
-- What `read_from` takes from the stream is exactly the encoding of the address that it returns.
use ruproxy.Prelude.{
  ℕ, ◌+◌, ◌≡◌, refl, ap, ap₂, sym, ◌∙◌, [], ◌∷◌, ◌++◌, length, arith, All-left, subst, take, get_or,
  sym, ap₂, suc, zero,
}
use ruproxy.Bytes.{Bytes, IsByte, AllBytes, u16_bytes, be16, u16_bytes-be16}
use ruproxy.Bytes.Elems.{filled, u16_bytes-elems}
use ruproxy.Io.{
  ok, read_u8, read_exact, read_exact_inv, step_inv, done_inv, lift, from_step, lift_inv,
}
use ruproxy.Tuic.Proto.{
  Address, read_domain, read_v4, read_v6, read_body, read_from, to_bytes, from_utf8,
}

module _ (s : Bytes) {a : Address} {rest : Bytes} (bs : AllBytes s) where
  read_v4_inv : read_v4 s ≡ ok (a, rest) → 0x01 ∷ s ≡ to_bytes a ++ rest
  unfolding read_v4 to_bytes
  read_v4_inv h =
      let (xs, s', read, e) = step_inv (read_exact 6 s) _ h in
      let (split, len) = read_exact_inv 6 s read in
      let f = filled 6 bs split len in
      let x = λ (i : ℕ). get_or xs i 0 in
      ap (◌∷◌ 0x01) f.is_prefix
      ∙ ap (λ t. 0x01 ∷ x 0 ∷ x 1 ∷ x 2 ∷ x 3 ∷ (t ++ s')) (sym (u16_bytes-elems f 4 5))
      ∙ done_inv to_bytes _ s' e

  read_v6_inv : read_v6 s ≡ ok (a, rest) → 0x02 ∷ s ≡ to_bytes a ++ rest
  unfolding read_v6 to_bytes
  read_v6_inv h =
      let (xs, s', read, e) = step_inv (read_exact 18 s) _ h in
      let (split, len) = read_exact_inv 18 s read in
      let f = filled 18 bs split len in
      let q = λ (i : ℕ) (j : ℕ). sym (u16_bytes-elems f i j) in
      ap (◌∷◌ 0x02) f.is_prefix
      ∙ ap (λ t. 0x02 ∷ (t ++ s'))
          (ap₂ ◌++◌ (q 0 1) (
            ap₂ ◌++◌ (q 2 3) (
              ap₂ ◌++◌ (q 4 5) (
                ap₂ ◌++◌ (q 6 7) (
                  ap₂ ◌++◌ (q 8 9)
                    (ap₂ ◌++◌ (q 10 11) (ap₂ ◌++◌ (q 12 13) (ap₂ ◌++◌ (q 14 15) (q 16 17)))))))))
      ∙ done_inv to_bytes _ s' e

-- The name, then the port, in a buffer of `len + 2` bytes.
name_and_port :
    (len : ℕ) (xs : Bytes)
    → length xs ≡ suc (suc len)
    → AllBytes xs
    → (take len xs ++ u16_bytes (be16 (get_or xs len 0) (get_or xs (suc len) 0)) ≡ xs)
      × (length (take len xs) ≡ len)
name_and_port zero (x ∷ y ∷ []) h bs = (u16_bytes-be16 x y bs.0 bs.1.0, refl)
name_and_port zero (x ∷ y ∷ z ∷ xs) h bs = absurd (omega arith)
name_and_port zero (x ∷ []) h bs = absurd (omega arith)
name_and_port zero [] h bs = absurd (omega arith)
name_and_port (suc len) (x ∷ xs) h bs =
    let (e, l) = name_and_port len xs (omega arith) bs.1 in (ap (◌∷◌ x) e, ap suc l)
name_and_port (suc len) [] h bs = absurd (omega arith)

read_domain_inv :
    (s : Bytes) {a : Address} {rest : Bytes}
    → AllBytes s
    → read_domain s ≡ ok (a, rest)
    → 0x00 ∷ s ≡ to_bytes a ++ rest
unfolding read_domain read_u8 to_bytes
read_domain_inv [] bs h = cc
read_domain_inv (len ∷ s) {a} {rest} bs h = from_step (read_exact (len + 2) s) h λ xs s2 read h2.
    from_step (lift (from_utf8 (take len xs)) s2) h2 λ d s3 checked h3.
      let (good, same) = lift_inv (from_utf8 (take len xs)) s2 checked in
      let (name, valid) = from_utf8_inv (take len xs) good in
      let (split, size) = read_exact_inv (len + 2) s read in
      let bytes = All-left IsByte xs s2 (subst AllBytes split bs.1) in
      let (e, l) = name_and_port len xs (omega arith) bytes in
      let len_byte : len ≡ length d % 256 = omega (arith, ap length name) in
      let buffer : s ≡ (d ++ u16_bytes (be16 (get_or xs len 0) (get_or xs (len + 1) 0))) ++ s3 =
        rw (← name, ← same, add-one, e) split in
      ap₂ (λ x y. 0x00 ∷ x ∷ y) len_byte buffer ∙ done_inv to_bytes _ s3 h3

-- `Address::read_from`, on a stream of bytes, consumes the bytes that `to_bytes` writes for the
-- address it returns.
pub read_from-consumes :
    (s : Bytes) {a : Address} {rest : Bytes}
    → AllBytes s
    → read_from s ≡ ok (a, rest)
    → s ≡ to_bytes a ++ rest
unfolding read_from read_u8 read_body
read_from-consumes [] bs h = cc
read_from-consumes (t ∷ s) {a} {rest} bs h = elim (Bool-cases (t == 0xff)) [
  | inl t_ff ↦
      ap₂ ◌∷◌ ((==_iff t 0xff).0 t_ff) refl
      ∙ (unfold to_bytes in done_inv to_bytes Address.none s (rw t_ff at h))
  | inr not_ff ↦ elim (Bool-cases (t == 0x00)) [
    | inl t_00 ↦
        ap₂ ◌∷◌ ((==_iff t 0).0 t_00) refl ∙ read_domain_inv s bs.1 (rw (not_ff, t_00) at h)
    | inr not_00 ↦ elim (Bool-cases (t == 0x01)) [
      | inl t_01 ↦
          ap₂ ◌∷◌ ((==_iff t 1).0 t_01) refl ∙ read_v4_inv s bs.1 (rw (not_ff, not_00, t_01) at h)
      | inr not_01 ↦ elim (Bool-cases (t == 0x02)) [
        | inl t_02 ↦
            ap₂ ◌∷◌ ((==_iff t 2).0 t_02) refl
            ∙ read_v6_inv s bs.1 (rw (not_ff, not_00, not_01, t_02) at h)
        | inr not_02 ↦ cc (rw (not_ff, not_00, not_01, not_02) at h)
      ]
    ]
  ]
]
