-- ===== src/Reality/Hello/Shares.antt =====
-- The key that the parser finds in a key share, and in the extensions.
use ruproxy.Reality.Hello.Fuel.{shares_from_end}
use ruproxy.Prelude.{
  ℕ, zero, suc, ◌+◌, ◌-◌, ◌/◌, ◌%◌, ◌≤◌, ◌≡◌, refl, sym, ap, ap₂, ◌∙◌, Bool, true, ◌&&◌, Option,
  none, some, List, [], ◌∷◌, ◌++◌, ◌==◌, leb, length, if◌then◌else◌, arith, All, inl, inr, min,
  append_assoc, length-append, Bool-cases, le→ltb, take_all, leb→le,
}
use ruproxy.Bytes.{Bytes, u16_bytes, IsU16, be16}
use ruproxy.Io.{Result, ok, or_fault, no_x25519}
use ruproxy.Reality.Hello.{
  u16_at, slice, shares_from, parse_x25519_key_share, group_x25519, group_x25519mlkem768,
}
use ruproxy.Reality.Hello.Parts.{
  Part, part_bytes, parts_bytes, IsPart, part_type, part_length, part_slice, part_next,
}

-- The last 32 bytes of a hybrid share, or what was found before.
abbrev pub hybrid_key : Part → Option Bytes → Option Bytes
hybrid_key (group, key) before =
    if group == group_x25519mlkem768 && leb 1120 (length key)
    then some (slice key (length key - 32) 32)
    else before

-- The first x25519 share of 32 bytes, or else the x25519 part of the last hybrid share.
unfoldable pub offered_key : List Part → Option Bytes → Result Bytes
offered_key [] hybrid = or_fault no_x25519 hybrid
offered_key ((group, key) ∷ shares) hybrid =
    let rest = offered_key shares (hybrid_key (group, key) hybrid) in
    if group == group_x25519 && length key == 32 then ok key else rest

second : (a : Bool) {n m : ℕ} → (a && n == m) ≡ true → n ≡ m
second a h = ground arith

-- One round of the loop, with what it reads.
shares_from_step :
    (fuel : ℕ) (d : Bytes) (end pos group ke_len : ℕ) (mlkem : Option Bytes)
    → pos + 4 + ke_len ≤ end
    → u16_at d pos ≡ group
    → u16_at d (pos + 2) ≡ ke_len
    → shares_from (suc fuel) d end pos mlkem ≡ (
        if group == group_x25519 && ke_len == 32
        then ok (slice d (pos + 4) 32)
        else shares_from fuel d end (pos + 4 + ke_len) (
            if group == group_x25519mlkem768 && leb 1120 ke_len
            then some (slice d (pos + 4 + (ke_len - 32)) 32)
            else mlkem))
unfolding shares_from
shares_from_step fuel d end pos group ke_len mlkem h g l =
    rw (l, g, le→ltb end (pos + 4) (omega arith), le→ltb end (pos + 4 + ke_len) h) refl

-- The loop on a part that stands behind `pre`.
module _ (pre : Bytes) (group : ℕ) (key rest : Bytes) where
  abbrev here : Bytes
  here = pre ++ (part_bytes (group, key) ++ rest)

  hybrid_here :
      (mlkem : Option Bytes)
      → (if group == group_x25519mlkem768 && leb 1120 (length key)
          then some (slice here (length pre + 4 + (length key - 32)) 32)
          else mlkem)
        ≡ hybrid_key (group, key) mlkem
  hybrid_here mlkem = elim (Bool-cases (leb 1120 (length key))) [
    | inl long ↦
        rw
          (part_slice pre group key rest (length key - 32) 32
            (omega (arith, leb→le 1120 (length key) long)))
          refl
    | inr short ↦ elim (Bool-cases (group == group_x25519mlkem768)) [
      | inl e ↦ rw (e, short) refl
      | inr e ↦ rw e refl
    ]
  ]

  key_here : length key ≡ 32 → slice here (length pre + 4) 32 ≡ key
  key_here h =
      let e : length pre + 4 ≡ length pre + 4 + 0 = omega arith in
      ap (λ i. slice here i 32) e
      ∙ part_slice pre group key rest 0 32 (omega arith)
      ∙ take_all 32 key (omega arith)

  shares_from-here :
      (fuel end : ℕ) (mlkem : Option Bytes)
      → IsPart (group, key)
      → length (pre ++ part_bytes (group, key)) ≤ end
      → shares_from (suc fuel) here end (length pre) mlkem ≡ (
          if group == group_x25519 && length key == 32
          then ok key
          else shares_from fuel here end
              (length (pre ++ part_bytes (group, key)))
              (hybrid_key (group, key) mlkem))
  shares_from-here fuel end mlkem h e =
      let next = part_next pre group key rest in
      shares_from_step fuel here end (length pre) group (length key) mlkem (omega arith)
        (part_type pre group key rest h.0) (part_length pre group key rest h.1)
      ∙ elim (Bool-cases (group == group_x25519 && length key == 32)) [
        | inl yes' ↦ rw yes' (ap (λ k. ok k) (key_here (second (group == group_x25519) yes')))
        | inr no' ↦ rw no' (ap₂ (shares_from fuel here end) next (hybrid_here mlkem))
      ]

shares_from-parts_bytes :
    (shares : List Part) (pre post : Bytes) (fuel : ℕ) (mlkem : Option Bytes)
    → All IsPart shares
    → length shares ≤ fuel
    → shares_from fuel
        (pre ++ (parts_bytes shares ++ post))
        (length pre + length (parts_bytes shares))
        (length pre)
        mlkem
      ≡ offered_key shares mlkem
unfolding offered_key
shares_from-parts_bytes [] pre post fuel mlkem h f = shares_from_end fuel _ _ _ mlkem (omega arith)
shares_from-parts_bytes (p ∷ shares) pre post zero mlkem h f = absurd (omega arith)
shares_from-parts_bytes ((group, key) ∷ shares) pre post (suc fuel) mlkem h f =
    let p = part_bytes (group, key) in
    let end = length pre + length (p ++ parts_bytes shares) in
    let l = length-append pre p in
    let l' = length-append p (parts_bytes shares) in
    let e1 = append_assoc p (parts_bytes shares) post in
    let e2 = append_assoc pre p (parts_bytes shares ++ post) in
    let same : length (pre ++ p) + length (parts_bytes shares) ≡ end = omega arith in
    let ih =
      shares_from-parts_bytes shares (pre ++ p) post fuel (hybrid_key (group, key) mlkem) h.1
        (omega arith) in
    ap (λ d. shares_from (suc fuel) (pre ++ d) end (length pre) mlkem) e1
    ∙ shares_from-here pre group key (parts_bytes shares ++ post) fuel end mlkem h.0 (omega arith)
    ∙ ap (λ r. if group == group_x25519 && length key == 32 then ok key else r)
        (ap₂ (λ d e. shares_from fuel d e (length (pre ++ p)) (hybrid_key (group, key) mlkem))
            (sym e2) (sym same)
          ∙ ih)

pub length-parts_bytes : (ps : List Part) → length ps ≤ length (parts_bytes ps)
length-parts_bytes [] = omega arith
length-parts_bytes ((t, body) ∷ ps) =
    omega (arith, length-append (part_bytes (t, body)) (parts_bytes ps), length-parts_bytes ps)

-- The body of a key share extension of a client, and bytes behind the shares, which are left alone.
abbrev pub shares_bytes : List Part → Bytes → Bytes
shares_bytes shares post = u16_bytes (length (parts_bytes shares)) ++ (parts_bytes shares ++ post)

-- On a list of shares that fit their lengths, with anything behind them, the parser gives what a
-- plain recursion over the list gives: the first x25519 share of 32 bytes, or else the last 32
-- bytes of the last X25519MLKEM768 share of at least 1120 bytes, or else an error.
pub parse_x25519_key_share-shares_bytes :
    (shares : List Part) (post : Bytes)
    → All IsPart shares
    → IsU16 (length (parts_bytes shares))
    → parse_x25519_key_share (shares_bytes shares post) ≡ offered_key shares none
unfolding parse_x25519_key_share
parse_x25519_key_share-shares_bytes shares post h u =
    let n = length (parts_bytes shares) in
    let l = length-append (parts_bytes shares) post in
    let few = length-parts_bytes shares in
    let d = shares_bytes shares post in
    let size : be16 (n / 256 % 256) (n % 256) ≡ n = omega arith in
    let end : min (2 + n) (length d) ≡ 2 + n = omega arith in
    rw (size, end, le→ltb (length d) 2 (omega arith))
      (shares_from-parts_bytes shares (u16_bytes n) post (length d) none h (omega arith))
