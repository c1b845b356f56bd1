-- ===== src/Shadowsocks/Nonce.antt =====
-- `increment_nonce` of src/shadowsocks/protocol.rs, against the counter that it stands for.
use ruproxy.Bytes.{Bytes, AllBytes}
use ruproxy.Prelude.{
  ℕ, zero, suc, ◌+◌, ◌*◌, ◌%◌, ◌^◌, ◌<◌, ◌≡◌, ◌≢◌, refl, sym, ap, ◌∙◌, false, not, [], ◌∷◌, ◌==◌,
  length, if◌then◌else◌, arith, ne→==, replicate,
}
use native.Mathlib.Nat.{pow-suc}

-- The loop goes on to the next byte where one wraps to zero.
unfoldable pub increment_nonce : Bytes → Bytes
increment_nonce [] = []
increment_nonce (b ∷ n) =
    let b' = (b + 1) % 256 in
    let rest = increment_nonce n in if not (b' == 0) then b' ∷ n else b' ∷ rest

-- The little-endian value.
abbrev pub le_value : Bytes → ℕ
le_value [] = 0
le_value (b ∷ n) = b + 256 * le_value n

le_value-bound : (n : Bytes) → AllBytes n → le_value n < 256 ^ length n
le_value-bound [] h = omega arith
le_value-bound (b ∷ n) h = omega (arith, h.0, le_value-bound n h.1, pow-suc 256 (length n))

pub increment_nonce-AllBytes : (n : Bytes) → AllBytes n → AllBytes (increment_nonce n)
unfolding increment_nonce
increment_nonce-AllBytes [] h = tt
increment_nonce-AllBytes (b ∷ n) h = ground (arith, increment_nonce-AllBytes n h.1)

pub length-increment_nonce : (n : Bytes) → length (increment_nonce n) ≡ length n
unfolding increment_nonce
length-increment_nonce [] = refl
length-increment_nonce (b ∷ n) = ground (arith, length-increment_nonce n)

-- On bytes, `increment_nonce` adds one to the little-endian value, and the largest value wraps to
-- zero.
pub le_value-increment_nonce :
    (n : Bytes)
    → AllBytes n
    → le_value (increment_nonce n)
      ≡ (if le_value n + 1 == 256 ^ length n then 0 else le_value n + 1)
unfolding increment_nonce
le_value-increment_nonce [] h = refl
le_value-increment_nonce (b ∷ n) h =
    ground
      (arith, h.0, le_value-increment_nonce n h.1, le_value-bound n h.1, pow-suc 256 (length n))

-- The nonce of a reader or a writer after `k` steps of its counter.
unfoldable pub nonce_after : ℕ → Bytes
nonce_after zero = replicate 12 0
nonce_after (suc k) = increment_nonce (nonce_after k)

nonce_after-counts :
    (k : ℕ)
    → k < 2 ^ 96
    → (le_value (nonce_after k) ≡ k) × AllBytes (nonce_after k) × (length (nonce_after k) ≡ 12)
unfolding nonce_after
nonce_after-counts zero h = (refl, omega arith, refl)
nonce_after-counts (suc k) h =
    let (value, bytes, len) = nonce_after-counts k (omega arith) in
    let add = le_value-increment_nonce (nonce_after k) bytes in
    let more : (k + 1 == 2 ^ 96) ≡ false = ne→== (k + 1) (2 ^ 96) (omega arith) in
    (
      add ∙ rw (value, len, more) (omega arith),
      increment_nonce-AllBytes (nonce_after k) bytes,
      length-increment_nonce (nonce_after k) ∙ len,
    )

-- The nonces of the first 2^96 steps of a counter are all different.
pub nonce_after-distinct :
    (i j : ℕ) → i < 2 ^ 96 → j < 2 ^ 96 → i ≢ j → nonce_after i ≢ nonce_after j
nonce_after-distinct i j hi hj differ same =
    differ (sym (nonce_after-counts i hi).0 ∙ ap le_value same ∙ (nonce_after-counts j hj).0)
