-- ===== src/Reality/Hello/Extensions.antt =====
-- The key share extension of a whole ClientHello.
use ruproxy.Reality.Hello.Fuel.{extensions_from_end}
use ruproxy.Prelude.{
  ℕ, zero, suc, ◌+◌, ◌≤◌, ◌≡◌, refl, sym, ap, ap₂, ◌∙◌, List, [], ◌∷◌, ◌++◌, ◌==◌, length, get_or,
  if◌then◌else◌, arith, All, append_assoc, length-append, le→ltb, take_all,
}
use ruproxy.Bytes.{Bytes, u16_bytes, IsU16}
use ruproxy.Io.{Result, err, no_key_share}
use ruproxy.Reality.Hello.{
  u16_at, slice, parse_x25519_key_share, extensions_from, ext_key_share, read_extensions,
  skip_compression, extract_x25519_from_key_share,
}
use ruproxy.Reality.Hello.Parts.{
  Part, part_bytes, parts_bytes, IsPart, part_type, part_length, part_slice, part_next,
}
use ruproxy.Reality.Hello.Shares.{length-parts_bytes}
use ruproxy.Reality.Hello.Parts.{u16_at_here}
use ruproxy.Reality.Der.Decoded.{get_or-here}

-- The first key share extension.
unfoldable pub share_of : List Part → Result Bytes
share_of [] = err no_key_share
share_of ((t, body) ∷ extensions) =
    let rest = share_of extensions in
    if t == ext_key_share then parse_x25519_key_share body else rest

extensions_from_step :
    (fuel : ℕ) (d : Bytes) (end pos t n : ℕ)
    → pos + 4 + n ≤ end
    → u16_at d pos ≡ t
    → u16_at d (pos + 2) ≡ n
    → extensions_from (suc fuel) d end pos ≡ (
        if t == ext_key_share
        then parse_x25519_key_share (slice d (pos + 4) n)
        else extensions_from fuel d end (pos + 4 + n))
unfolding extensions_from
extensions_from_step fuel d end pos t n h g l =
    rw (l, g, le→ltb end (pos + 4) (omega arith), le→ltb end (pos + 4 + n) h) refl

module _ (pre : Bytes) (t : ℕ) (body rest : Bytes) where
  abbrev here : Bytes
  here = pre ++ (part_bytes (t, body) ++ rest)

  body_here : slice here (length pre + 4) (length body) ≡ body
  body_here =
      let e : length pre + 4 ≡ length pre + 4 + 0 = omega arith in
      ap (λ i. slice here i (length body)) e
      ∙ part_slice pre t body rest 0 (length body) (omega arith)
      ∙ take_all (length body) body (omega arith)

  extensions_from-here :
      (fuel end : ℕ)
      → IsPart (t, body)
      → length (pre ++ part_bytes (t, body)) ≤ end
      → extensions_from (suc fuel) here end (length pre) ≡ (
          if t == ext_key_share
          then parse_x25519_key_share body
          else extensions_from fuel here end (length (pre ++ part_bytes (t, body))))
  extensions_from-here fuel end h e =
      let next = part_next pre t body rest in
      extensions_from_step fuel here end (length pre) t (length body) (omega arith)
        (part_type pre t body rest h.0) (part_length pre t body rest h.1)
      ∙ ap₂
          (λ x y.
            if t == ext_key_share
            then parse_x25519_key_share x
            else extensions_from fuel here end y)
          body_here next

extensions_from-parts_bytes :
    (ps : List Part) (pre post : Bytes) (fuel : ℕ)
    → All IsPart ps
    → length ps ≤ fuel
    → extensions_from fuel
        (pre ++ (parts_bytes ps ++ post))
        (length pre + length (parts_bytes ps))
        (length pre)
      ≡ share_of ps
unfolding share_of
extensions_from-parts_bytes [] pre post fuel h f = extensions_from_end fuel _ _ _ (omega arith)
extensions_from-parts_bytes (p ∷ ps) pre post zero h f = absurd (omega arith)
extensions_from-parts_bytes ((t, body) ∷ ps) pre post (suc fuel) h f =
    let p = part_bytes (t, body) in
    let end = length pre + length (p ++ parts_bytes ps) in
    let l = length-append pre p in
    let l' = length-append p (parts_bytes ps) in
    let e1 = append_assoc p (parts_bytes ps) post in
    let e2 = append_assoc pre p (parts_bytes ps ++ post) in
    let same : length (pre ++ p) + length (parts_bytes ps) ≡ end = omega arith in
    let ih = extensions_from-parts_bytes ps (pre ++ p) post fuel h.1 (omega arith) in
    ap (λ d. extensions_from (suc fuel) (pre ++ d) end (length pre)) e1
    ∙ extensions_from-here pre t body (parts_bytes ps ++ post) fuel end h.0 (omega arith)
    ∙ ap (λ r. if t == ext_key_share then parse_x25519_key_share body else r)
        (ap₂ (λ d e. extensions_from fuel d e (length (pre ++ p))) (sym e2) (sym same) ∙ ih)

-- A ClientHello behind its session id.
abbrev pub extensions_bytes : List Part → Bytes
extensions_bytes ps = u16_bytes (length (parts_bytes ps)) ++ parts_bytes ps

abbrev pub hello_tail : Bytes → Bytes → List Part → Bytes → Bytes
hello_tail suites compression ps post =
    u16_bytes (length suites)
    ++ (suites ++ (length compression ∷ (compression ++ (extensions_bytes ps ++ post))))

read_by :
    (d : Bytes) (pos n : ℕ)
    → u16_at d pos ≡ n
    → pos + 2 + n ≤ length d
    → read_extensions d pos ≡ extensions_from (length d) d (pos + 2 + n) (pos + 2)
unfolding read_extensions
read_by d pos n u h =
    rw (u, le→ltb (length d) (pos + 2) (omega arith), le→ltb (length d) (pos + 2 + n) h) refl

read_extensions_lem :
    (pre : Bytes) (ps : List Part) (post : Bytes)
    → All IsPart ps
    → IsU16 (length (parts_bytes ps))
    → read_extensions (pre ++ (extensions_bytes ps ++ post)) (length pre) ≡ share_of ps
read_extensions_lem pre ps post h u =
    let n = length (parts_bytes ps) in
    let d = pre ++ (extensions_bytes ps ++ post) in
    let before = pre ++ u16_bytes n in
    let l = length-append pre (u16_bytes n) in
    let l1 = length-append pre (extensions_bytes ps ++ post) in
    let l2 = length-append (parts_bytes ps) post in
    let few = length-parts_bytes ps in
    let shape : d ≡ before ++ (parts_bytes ps ++ post) =
      sym (append_assoc pre (u16_bytes n) (parts_bytes ps ++ post)) in
    let start : length pre + 2 ≡ length before = omega arith in
    read_by d (length pre) n (u16_at_here pre n (parts_bytes ps ++ post) u) (omega arith)
    ∙ ap₂ (λ x p. extensions_from (length d) x (p + n) p) shape start
    ∙ extensions_from-parts_bytes ps before post (length d) h (omega arith)

skip_by :
    (d : Bytes) (pos n : ℕ)
    → get_or d pos 0 ≡ n
    → pos + 1 ≤ length d
    → skip_compression d pos ≡ read_extensions d (pos + 1 + n)
unfolding skip_compression
skip_by d pos n g h = rw (g, le→ltb (length d) (pos + 1) h) refl

skip_compression_lem :
    (pre compression : Bytes) (ps : List Part) (post : Bytes)
    → All IsPart ps
    → IsU16 (length (parts_bytes ps))
    → skip_compression
        (pre ++ (length compression ∷ (compression ++ (extensions_bytes ps ++ post))))
        (length pre)
      ≡ share_of ps
skip_compression_lem pre compression ps post h u =
    let part = length compression ∷ compression in
    let exts = extensions_bytes ps ++ post in
    let d = pre ++ (part ++ exts) in
    let l = length-append pre part in
    let l1 = length-append pre (part ++ exts) in
    let here' : length pre + 1 + length compression ≡ length (pre ++ part) = omega arith in
    skip_by d (length pre) (length compression)
      (get_or-here pre (length compression) (compression ++ exts)) (omega arith)
    ∙ ap₂ read_extensions (sym (append_assoc pre part exts)) here'
    ∙ read_extensions_lem (pre ++ part) ps post h u

extract_by :
    (d : Bytes) (n : ℕ)
    → u16_at d 76 ≡ n
    → 78 ≤ length d
    → extract_x25519_from_key_share d ≡ skip_compression d (78 + n)
unfolding extract_x25519_from_key_share
extract_by d n u h = rw (u, le→ltb (length d) 78 h) refl

-- A ClientHello whose session id has 32 bytes gives the key of its first key share extension.
pub extract_x25519_from_key_share-hello_tail :
    (front suites compression : Bytes) (ps : List Part) (post : Bytes)
    → length front ≡ 76
    → IsU16 (length suites)
    → All IsPart ps
    → IsU16 (length (parts_bytes ps))
    → extract_x25519_from_key_share (front ++ hello_tail suites compression ps post) ≡ share_of ps
extract_x25519_from_key_share-hello_tail front suites compression ps post f s h u =
    let part = u16_bytes (length suites) ++ suites in
    let more = length compression ∷ (compression ++ (extensions_bytes ps ++ post)) in
    let d = front ++ hello_tail suites compression ps post in
    let l = length-append front (hello_tail suites compression ps post) in
    let l1 = length-append front part in
    let at : u16_at d 76 ≡ length suites =
      ap (u16_at d) (sym f) ∙ u16_at_here front (length suites) (suites ++ more) s in
    let here' : 78 + length suites ≡ length (front ++ part) = omega arith in
    extract_by d (length suites) at (omega arith)
    ∙ ap₂ skip_compression (sym (append_assoc front part more)) here'
    ∙ skip_compression_lem (front ++ part) compression ps post h u
