-- ===== src/Reality/Hello/Suites.antt =====
-- Which cipher the cipher suites of a ClientHello choose.
use ruproxy.Reality.Hello.Fuel.{suites_from_end}
use ruproxy.Prelude.{
  ℕ, zero, suc, ◌+◌, ◌*◌, ◌≤◌, ◌<◌, ◌≡◌, refl, sym, ap, ap₂, ◌∙◌, Bool, true, false, List, [], ◌∷◌,
  ◌++◌, length, if◌then◌else◌, arith, All, append_assoc, length-append, lt→leb, le→ltb,
}
use ruproxy.Bytes.{Bytes, u16_bytes, IsU16}
use ruproxy.Reality.Hello.{
  u16_at, is_aes_suite, is_chacha_suite, suites_from, cipher_suite_prefers_aes,
}
use ruproxy.Reality.Hello.Parts.{u16_at_here}

abbrev pub suites_bytes : List ℕ → Bytes
suites_bytes [] = []
suites_bytes (s ∷ suites) = u16_bytes s ++ suites_bytes suites

-- The first suite that is known decides, and AES is the default.
unfoldable pub prefers : List ℕ → Bool
prefers [] = true
prefers (s ∷ suites) =
    let rest = prefers suites in
    if is_aes_suite s then true else if is_chacha_suite s then false else rest

suites_from_step :
    (fuel : ℕ) (d : Bytes) (end i s : ℕ)
    → i + 1 < end
    → u16_at d i ≡ s
    → suites_from (suc fuel) d end i ≡ (
        if is_aes_suite s
        then true
        else if is_chacha_suite s
        then false
        else suites_from fuel d end (i + 2))
unfolding suites_from
suites_from_step fuel d end i s h u = rw (u, lt→leb end (i + 1) h) refl

suites_from-suites_bytes :
    (suites : List ℕ) (pre post : Bytes) (fuel : ℕ)
    → All IsU16 suites
    → length suites ≤ fuel
    → suites_from fuel
        (pre ++ (suites_bytes suites ++ post))
        (length pre + length (suites_bytes suites))
        (length pre)
      ≡ prefers suites
unfolding prefers
suites_from-suites_bytes [] pre post fuel h f = suites_from_end fuel _ _ _ (omega arith)
suites_from-suites_bytes (s ∷ suites) pre post zero h f = absurd (omega arith)
suites_from-suites_bytes (s ∷ suites) pre post (suc fuel) h f =
    let n = length (suites_bytes suites) in
    let d = pre ++ (suites_bytes (s ∷ suites) ++ post) in
    let l = length-append pre (u16_bytes s) in
    let next : length pre + 2 ≡ length (pre ++ u16_bytes s) = omega arith in
    let end : length pre + (2 + n) ≡ length (pre ++ u16_bytes s) + n = omega arith in
    let size : length pre + length (suites_bytes (s ∷ suites)) ≡ length pre + (2 + n) =
      omega arith in
    let shape : d ≡ (pre ++ u16_bytes s) ++ (suites_bytes suites ++ post) =
      sym (append_assoc pre (u16_bytes s) (suites_bytes suites ++ post)) in
    let ih = suites_from-suites_bytes suites (pre ++ u16_bytes s) post fuel h.1 (omega arith) in
    ap (λ e. suites_from (suc fuel) d e (length pre)) size
    ∙ suites_from_step fuel d (length pre + (2 + n)) (length pre) s (omega arith)
        (u16_at_here pre s (suites_bytes suites ++ post) h.0)
    ∙ ap (λ r. if is_aes_suite s then true else if is_chacha_suite s then false else r)
        (ap₂ (λ x i. suites_from fuel x (length pre + (2 + n)) i) shape next
          ∙ ap
              (λ e.
                suites_from fuel ((pre ++ u16_bytes s) ++ (suites_bytes suites ++ post)) e
                  (length (pre ++ u16_bytes s)))
              end
          ∙ ih)

length-suites_bytes : (suites : List ℕ) → 2 * length suites ≡ length (suites_bytes suites)
length-suites_bytes [] = omega arith
length-suites_bytes (s ∷ suites) = omega (arith, length-suites_bytes suites)

prefers_by :
    (d : Bytes) (n : ℕ)
    → u16_at d 76 ≡ n
    → 78 + n ≤ length d
    → 2 ≤ n
    → cipher_suite_prefers_aes d ≡ suites_from (length d) d (78 + n) 78
unfolding cipher_suite_prefers_aes
prefers_by d n u h k =
    rw (u, le→ltb (length d) 78 (omega arith), le→ltb (length d) (78 + n) h, le→ltb n 2 k) refl

prefers_none : (d : Bytes) → u16_at d 76 ≡ 0 → cipher_suite_prefers_aes d ≡ true
unfolding cipher_suite_prefers_aes
prefers_none d u = rw u (ground arith)

-- What follows the suites makes no difference.
pub cipher_suite_prefers_aes-suites_bytes :
    (front : Bytes) (suites : List ℕ) (post : Bytes)
    → length front ≡ 76
    → All IsU16 suites
    → IsU16 (length (suites_bytes suites))
    → cipher_suite_prefers_aes
        (front ++ (u16_bytes (length (suites_bytes suites)) ++ (suites_bytes suites ++ post)))
      ≡ prefers suites
cipher_suite_prefers_aes-suites_bytes front [] post f h u =
    unfold prefers in
    prefers_none _ (
      ap (u16_at (front ++ (u16_bytes 0 ++ post))) (sym f) ∙ u16_at_here front 0 post (omega arith))
cipher_suite_prefers_aes-suites_bytes front (s ∷ suites) post f h u =
    let all' = suites_bytes (s ∷ suites) in
    let n = length all' in
    let d = front ++ (u16_bytes n ++ (all' ++ post)) in
    let before = front ++ u16_bytes n in
    let l = length-append front (u16_bytes n) in
    let l1 = length-append front (u16_bytes n ++ (all' ++ post)) in
    let l2 = length-append all' post in
    let few = length-suites_bytes (s ∷ suites) in
    let at : u16_at d 76 ≡ n = ap (u16_at d) (sym f) ∙ u16_at_here front n (all' ++ post) u in
    let shape : d ≡ before ++ (all' ++ post) =
      sym (append_assoc front (u16_bytes n) (all' ++ post)) in
    let start : 78 ≡ length before = omega arith in
    prefers_by d n at (omega arith) (omega arith)
    ∙ ap₂ (λ x i. suites_from (length d) x (i + n) i) shape start
    ∙ suites_from-suites_bytes (s ∷ suites) before post (length d) h (omega arith)
