-- ===== src/Hysteria2/Frame/Chunks.antt =====
-- The fragments of a large reply: they make up the payload, none is larger than a datagram, and their
-- number fits the byte that carries it.
use ruproxy.Text.{SocketAddr, socket_addr_text}
use ruproxy.Prelude.{
  ℕ, zero, suc, ◌+◌, ◌*◌, ◌≤◌, ◌<◌, ◌≡◌, refl, ap, List, [], ◌∷◌, ◌++◌, ltb, length, drop, arith,
  All, inl, inr, Bool-cases, length-take, length-drop, take-append-drop, ltb→lt, ltb_false→le, ◌%◌,
}
use ruproxy.Bytes.{Bytes}
use ruproxy.Hysteria2.Frame.{
  chunks, ℕ, List, ◌∷◌, length, suc, drop, datagram_max_payload, number_frames,
  build_single_udp_frame, build_udp_frames, leb, false,
}

abbrev pub concat : List Bytes → Bytes
concat [] = []
concat (x ∷ xs) = x ++ concat xs

pub concat-chunks :
    (fuel n : ℕ) (s : Bytes) → length s ≤ fuel → 0 < n → concat (chunks fuel n s) ≡ s
unfolding chunks
concat-chunks zero n [] h p = refl
concat-chunks zero n (b ∷ s) h p = absurd (omega arith)
concat-chunks (suc fuel) n [] h p = refl
concat-chunks (suc fuel) n (b ∷ s) h p =
    rw (concat-chunks fuel n (drop n (b ∷ s)) (omega (arith, length-drop n (b ∷ s))) p)
      (take-append-drop n (b ∷ s))

abbrev pub FitsDatagram : ℕ → Bytes → Type 0
FitsDatagram n c = (0 < length c) × (length c ≤ n)

pub chunks-All : (fuel n : ℕ) (s : Bytes) → 0 < n → All (FitsDatagram n) (chunks fuel n s)
unfolding chunks
chunks-All zero n s p = tt
chunks-All (suc fuel) n [] p = tt
chunks-All (suc fuel) n (b ∷ s) p =
    (omega (arith, length-take n (b ∷ s)), chunks-All fuel n (drop n (b ∷ s)) p)

no_multiple : (c n : ℕ) → c * n < n → c ≡ 0
no_multiple zero n h = refl
no_multiple (suc c) n h = absurd (omega arith)

pub length-chunks :
    (fuel n : ℕ) (s : Bytes) → length s ≤ fuel → 0 < n → length (chunks fuel n s) * n < length s + n
unfolding chunks
length-chunks zero n [] h p = omega arith
length-chunks zero n (b ∷ s) h p = absurd (omega arith)
length-chunks (suc fuel) n [] h p = omega arith
length-chunks (suc fuel) n (b ∷ s) h p =
    let ih = length-chunks fuel n (drop n (b ∷ s)) (omega (arith, length-drop n (b ∷ s))) p in
    let rest = length-drop n (b ∷ s) in
    let count = length (chunks fuel n (drop n (b ∷ s))) in
    elim (Bool-cases (ltb (length (b ∷ s)) n)) [
      | inl last ↦
          let fewer = ltb→lt (length (b ∷ s)) n last in
          let none_left = no_multiple count n (omega arith) in
          omega (arith, ap (λ (c : ℕ). c * n) none_left)
      | inr more ↦ let enough = ltb_false→le (length (b ∷ s)) n more in omega arith
    ]

-- The frames of the chunks, numbered from `i`.
abbrev pub numbered : ℕ → ℕ → ℕ → Bytes → ℕ → List Bytes → List Bytes
numbered sid pid total addr i [] = []
numbered sid pid total addr i (c ∷ cs) =
    build_single_udp_frame sid pid i total addr c ∷ numbered sid pid total addr (i + 1) cs

number_frames-numbered :
    (sid pid total : ℕ) (addr : Bytes) (i : ℕ) (cs : List Bytes)
    → i + length cs ≤ 256
    → number_frames sid pid total addr i cs ≡ numbered sid pid total addr i cs
unfolding number_frames
number_frames-numbered sid pid total addr i [] h = refl
number_frames-numbered sid pid total addr i (c ∷ cs) h =
    let fits : i % 256 ≡ i = omega arith in
    rw (fits, number_frames-numbered sid pid total addr (i + 1) cs (omega arith)) refl

-- A UDP payload that is too large for one datagram, of at most 65507 bytes, is sent as frames that
-- are numbered from 0 and carry the count of them, at most 60, so neither number wraps in its
-- byte; what they carry are non-empty chunks of at most 1100 bytes that make up the payload in
-- their order.
pub build_udp_frames-numbered :
    (sid pid : ℕ) (src : SocketAddr) (payload : Bytes)
    → 1100 < length payload
    → length payload ≤ 65507
    → (parts : List Bytes) × (build_udp_frames sid pid src payload
        ≡ numbered sid pid (length parts) (socket_addr_text src) 0 parts)
      × (concat parts ≡ payload)
      × All (FitsDatagram datagram_max_payload) parts
      × (length parts ≤ 60)
unfolding build_udp_frames
build_udp_frames-numbered sid pid src payload large h =
    let parts = chunks (length payload) datagram_max_payload payload in
    let count : length parts ≤ 60 = omega (
      arith,
      length-chunks (length payload) datagram_max_payload payload (omega arith) (omega arith),
    ) in
    let fits : length parts % 256 ≡ length parts = omega arith in
    let split : leb (length payload) 1100 ≡ false = ground arith in
    (
      parts,
      rw (split, fits)
          (number_frames-numbered sid pid (length parts) (socket_addr_text src) 0 parts
            (omega arith)),
      concat-chunks (length payload) datagram_max_payload payload (omega arith) (omega arith),
      chunks-All (length payload) datagram_max_payload payload (omega arith),
      count,
    )
