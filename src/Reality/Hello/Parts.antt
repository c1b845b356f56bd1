-- ===== src/Reality/Hello/Parts.antt =====
-- A part with a 16-bit type and a 16-bit length, which extensions and key shares are, wherever it
-- stands.
use ruproxy.Prelude.{
  ℕ, zero, suc, ◌+◌, ◌≤◌, ◌≡◌, refl, sym, ap, ◌∙◌, List, [], ◌∷◌, ◌++◌, length, take, arith,
  append_assoc, length-append, get_or-append, drop-append,
}
use ruproxy.Bytes.{Bytes, u16_bytes, IsU16, be16-u16_bytes}
use ruproxy.Reality.Hello.{u16_at, slice}

abbrev pub Part : Type 0
Part = ℕ × Bytes

abbrev pub part_bytes : Part → Bytes
part_bytes (t, body) = u16_bytes t ++ (u16_bytes (length body) ++ body)

abbrev pub parts_bytes : List Part → Bytes
parts_bytes [] = []
parts_bytes (p ∷ ps) = part_bytes p ++ parts_bytes ps

abbrev pub IsPart : Part → Type 0
IsPart (t, body) = IsU16 t × IsU16 (length body)

pub u16_at-append :
    (pre ys : Bytes) (n k : ℕ) → length pre ≡ n → u16_at (pre ++ ys) (n + k) ≡ u16_at ys k
u16_at-append pre ys n k h =
    let e : n + k + 1 ≡ n + (k + 1) = omega arith in
    rw (e, get_or-append n k pre ys 0 h, get_or-append n (k + 1) pre ys 0 h) refl

pub u16_at_here :
    (pre : Bytes) (v : ℕ) (rest : Bytes)
    → IsU16 v
    → u16_at (pre ++ (u16_bytes v ++ rest)) (length pre) ≡ v
u16_at_here pre v rest h =
    let e : length pre ≡ length pre + 0 = omega arith in
    ap (u16_at (pre ++ (u16_bytes v ++ rest))) e
    ∙ u16_at-append pre (u16_bytes v ++ rest) (length pre) 0 refl
    ∙ be16-u16_bytes v h

pub slice-append :
    (pre ys : Bytes) (n k m : ℕ) → length pre ≡ n → slice (pre ++ ys) (n + k) m ≡ slice ys k m
slice-append pre ys n k m h = ap (take m) (drop-append n k pre ys h)

take-append_left : (m : ℕ) (xs ys : Bytes) → m ≤ length xs → take m (xs ++ ys) ≡ take m xs
take-append_left zero xs ys h = refl
take-append_left (suc m) [] ys h = absurd (omega arith)
take-append_left (suc m) (x ∷ xs) ys h = ap (◌∷◌ x) (take-append_left m xs ys (omega arith))

slice-append_left :
    (k m : ℕ) (xs ys : Bytes) → k + m ≤ length xs → slice (xs ++ ys) k m ≡ slice xs k m
slice-append_left zero m xs ys h = take-append_left m xs ys (omega arith)
slice-append_left (suc k) m [] ys h = absurd (omega arith)
slice-append_left (suc k) m (x ∷ xs) ys h = slice-append_left k m xs ys (omega arith)

module _ (pre : Bytes) (t : ℕ) (body rest : Bytes) where
  pub part_type : IsU16 t → u16_at (pre ++ (part_bytes (t, body) ++ rest)) (length pre) ≡ t
  part_type h = u16_at_here pre t (u16_bytes (length body) ++ (body ++ rest)) h

  pub part_length :
      IsU16 (length body)
      → u16_at (pre ++ (part_bytes (t, body) ++ rest)) (length pre + 2) ≡ length body
  part_length h =
      u16_at-append pre (part_bytes (t, body) ++ rest) (length pre) 2 refl
      ∙ be16-u16_bytes (length body) h

  pub part_slice :
      (k m : ℕ)
      → k + m ≤ length body
      → slice (pre ++ (part_bytes (t, body) ++ rest)) (length pre + 4 + k) m ≡ slice body k m
  part_slice k m h =
      let front = u16_bytes t ++ u16_bytes (length body) in
      ap (λ d. slice d (length pre + 4 + k) m) (sym (append_assoc pre front (body ++ rest)))
      ∙ slice-append (pre ++ front) (body ++ rest) (length pre + 4) k m (length-append pre front)
      ∙ slice-append_left k m body rest h

  pub part_next : length pre + 4 + length body ≡ length (pre ++ part_bytes (t, body))
  part_next = omega (arith, length-append pre (part_bytes (t, body)))
