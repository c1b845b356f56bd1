-- ===== src/Trojan/Line.antt =====
-- The loop of `decode_trojan` that reads the line with the password.
use ruproxy.Prelude.{
  ℕ, ◌+◌, ◌-◌, ◌≤◌, ◌<◌, ◌≡◌, ◌≢◌, refl, sym, ap, ap₂, ◌∙◌, subst, true, false, [], ◌∷◌, ◌++◌, ltb,
  length, take, drop, get_or, arith, All, inl, inr, append_assoc, length-append, Bool-cases,
  take-append-drop, get_or-append, le→ltb, drop-length_append, le→leb, ltb_false→le,
}
use ruproxy.Bytes.{Bytes, bytes_eq, bytes_eq_iff, bytes_eq_refl}
use ruproxy.Io.{ok, ok_inj}
use ruproxy.Trojan.{crlf, ends_with, read_line}

pub ends_with-append : (xs t : Bytes) → ends_with (xs ++ t) t ≡ true
unfolding ends_with
ends_with-append xs t =
    let l = length-append xs t in
    let n : length (xs ++ t) - length t ≡ length xs = omega (arith, l) in
    rw (n, drop-length_append xs t)
      (rw (bytes_eq_refl t)
        (ground (arith, le→leb (length t) (length (xs ++ t)) (omega (arith, l)))))

pub ends_with_inv : (l t : Bytes) → ends_with l t ≡ true → take (length l - length t) l ++ t ≡ l
unfolding ends_with
ends_with_inv l t h =
    let e : bytes_eq (drop (length l - length t) l) t ≡ true = ground arith in
    ap (λ x. take (length l - length t) l ++ x) (sym ((bytes_eq_iff _ t).0 e))
    ∙ take-append-drop (length l - length t) l

-- Only a line feed ends a line.
ends_with-last : (line : Bytes) (b : ℕ) → b ≢ 10 → ends_with (line ++ (b ∷ [])) crlf ≡ false
ends_with-last line b h = elim (Bool-cases (ends_with (line ++ (b ∷ [])) crlf)) [
  | inl yes' ↦
      let xs = take (length (line ++ (b ∷ [])) - 2) (line ++ (b ∷ [])) in
      let e = ends_with_inv (line ++ (b ∷ [])) crlf yes' in
      let l = length-append xs crlf in
      let k = length-append line (b ∷ []) in
      let m = ap length e in
      let n : length xs + 1 ≡ length line + 0 = omega (arith, l, k, m) in
      let here = get_or-append (length xs) 1 xs crlf 0 refl in
      let there = get_or-append (length line) 0 line (b ∷ []) 0 refl in
      let same = ap (λ y. get_or y (length xs + 1) 0) e in
      absurd (h (sym (sym here ∙ same ∙ ap (λ i. get_or (line ++ (b ∷ [])) i 0) n ∙ there)))
  | inr no' ↦ no'
]

pub read_line-append :
    (line body rest : Bytes)
    → All (λ b. b ≢ 10) body
    → length line + length body < 256
    → read_line line (body ++ (crlf ++ rest)) ≡ ok (line ++ (body ++ crlf), rest)
unfolding read_line
read_line-append line [] rest a h =
    let k = length-append line (13 ∷ []) in
    rw (ends_with-last line 13 (omega arith)) (
      rw (le→ltb 256 (length (line ++ (13 ∷ []))) (omega (arith, k)))
        (rw (append_assoc line (13 ∷ []) (10 ∷ [])) (rw (ends_with-append line crlf) refl)))
read_line-append line (b ∷ body) rest a h =
    let k = length-append line (b ∷ []) in
    rw (ends_with-last line b a.0) (
      rw (le→ltb 256 (length (line ++ (b ∷ []))) (omega (arith, k))) (
        read_line-append (line ++ (b ∷ [])) body rest a.1 (omega (arith, k))
        ∙ ap (λ l. ok (l, rest)) (append_assoc line (b ∷ []) (body ++ crlf))))

-- A line that is read ends with CRLF, has at most 257 bytes, and is what was taken from the stream.
pub read_line_inv :
    (line s : Bytes) {l rest : Bytes}
    → length line ≤ 256
    → read_line line s ≡ ok (l, rest)
    → (line ++ s ≡ l ++ rest) × (ends_with l crlf ≡ true) × (length l ≤ 257)
unfolding read_line
read_line_inv line [] h e = cc
read_line_inv line (b ∷ s) {l} {rest} h e =
    let k = length-append line (b ∷ []) in
    elim (Bool-cases (ends_with (line ++ (b ∷ [])) crlf)) [
      | inl end ↦
          let (same, left) = ok_inj (rw (end, read_line) at e) in
          (
            sym (append_assoc line (b ∷ []) s) ∙ ap₂ (λ x y. x ++ y) same left,
            subst (λ x. ends_with x crlf ≡ true) same end,
            omega (arith, k, ap length same),
          )
      | inr more ↦ elim (Bool-cases (ltb 256 (length (line ++ (b ∷ []))))) [
        | inl long ↦ cc (rw (long, read_line) at (rw (more, read_line) at e))
        | inr short ↦
            let (same, end, bound) =
              read_line_inv (line ++ (b ∷ [])) s (ltb_false→le 256 _ short)
                (rw (short) at (rw (more) at e)) in
            (sym (append_assoc line (b ∷ []) s) ∙ same, end, bound)
      ]
    ]
