-- ===== src/Prelude/Slices.antt =====
-- Where the parts of joined lists stand: `get_or`, `take` and `drop` of `xs ++ ys`.
use ruproxy.Prelude.Lists.{length, get_or, take, drop}
use Prim.Native.Nat.{ℕ, zero, suc, ◌+◌, ◌<◌}
use mathlib.Core.Path.{◌≡◌, refl, ap}
use mathlib.Core.List.{List, [], ◌∷◌, ◌++◌}
use native.Mathlib.Omega.{arith}

module _ {ℓ} {A : Type ℓ} where
  pub get_or-append :
      (n k : ℕ) (xs ys : List A) (d : A)
      → length xs ≡ n
      → get_or (xs ++ ys) (n + k) d ≡ get_or ys k d
  get_or-append zero k [] ys d h = let e : 0 + k ≡ k = omega arith in rw e refl
  get_or-append (suc n) k (x ∷ xs) ys d h =
      let e : suc n + k ≡ suc (n + k) = omega arith in
      rw e (get_or-append n k xs ys d (omega arith))
  get_or-append zero k (x ∷ xs) ys d h = absurd (omega arith)
  get_or-append (suc n) k [] ys d h = absurd (omega arith)

  pub get_or-append_left :
      (k : ℕ) (xs ys : List A) (d : A) → k < length xs → get_or (xs ++ ys) k d ≡ get_or xs k d
  get_or-append_left k [] ys d h = absurd (omega arith)
  get_or-append_left zero (x ∷ xs) ys d h = refl
  get_or-append_left (suc k) (x ∷ xs) ys d h = get_or-append_left k xs ys d (omega arith)

  pub drop-append : (n k : ℕ) (xs ys : List A) → length xs ≡ n → drop (n + k) (xs ++ ys) ≡ drop k ys
  drop-append zero k [] ys h = let e : 0 + k ≡ k = omega arith in rw e refl
  drop-append (suc n) k (x ∷ xs) ys h =
      let e : suc n + k ≡ suc (n + k) = omega arith in rw e (drop-append n k xs ys (omega arith))
  drop-append zero k (x ∷ xs) ys h = absurd (omega arith)
  drop-append (suc n) k [] ys h = absurd (omega arith)

  pub take-append : (n : ℕ) (xs ys : List A) → length xs ≡ n → take n (xs ++ ys) ≡ xs
  take-append zero [] ys h = refl
  take-append (suc n) (x ∷ xs) ys h = ap (◌∷◌ x) (take-append n xs ys (omega arith))
  take-append zero (x ∷ xs) ys h = absurd (omega arith)
  take-append (suc n) [] ys h = absurd (omega arith)
