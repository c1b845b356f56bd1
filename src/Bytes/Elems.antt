-- ===== src/Bytes/Elems.antt =====
-- A buffer of a known length, by its elements.
use ruproxy.Prelude.{
  ℕ, zero, suc, ◌≡◌, refl, ap, ◌∙◌, [], ◌∷◌, length, get_or, arith, sym, ◌++◌, subst, All-left,
  All-right,
}
use ruproxy.Bytes.{Bytes, IsByte, AllBytes, u16_bytes, be16, u16_bytes-be16}

-- `xs[i]`, … , `xs[i + n - 1]`
abbrev pub elems : ℕ → ℕ → Bytes → Bytes
elems i zero xs = []
elems i (suc n) xs = get_or xs i 0 ∷ elems (suc i) n xs

elems_cons : (i n x : ℕ) (xs : Bytes) → elems (suc i) n (x ∷ xs) ≡ elems i n xs
elems_cons i zero x xs = refl
elems_cons i (suc n) x xs = ap (◌∷◌ (get_or xs i 0)) (elems_cons (suc i) n x xs)

pub elems_all : (n : ℕ) (xs : Bytes) → length xs ≡ n → xs ≡ elems 0 n xs
elems_all zero [] h = refl
elems_all zero (x ∷ xs) h = absurd (omega arith)
elems_all (suc n) [] h = absurd (omega arith)
elems_all (suc n) (x ∷ xs) h =
    ap (◌∷◌ x) (elems_all n xs (omega arith)) ∙ ap (◌∷◌ x) (sym (elems_cons 0 n x xs))

pub get_or-IsByte : (xs : Bytes) (i : ℕ) → AllBytes xs → IsByte (get_or xs i 0)
get_or-IsByte [] i h = omega arith
get_or-IsByte (x ∷ xs) zero h = h.0
get_or-IsByte (x ∷ xs) (suc i) h = get_or-IsByte xs i h.1

-- A buffer filled from the stream `s`, and the bytes `rest` behind it.
pub record Filled (n : ℕ) (s xs rest : Bytes) : Type 0 where
  pub is_prefix : s ≡ elems 0 n xs ++ rest
  pub bytes : AllBytes xs
  pub rest_bytes : AllBytes rest

pub filled :
    (n : ℕ) {s xs rest : Bytes} → AllBytes s → s ≡ xs ++ rest → length xs ≡ n → Filled n s xs rest
filled n {s} {xs} {rest} bs split len =
    let all : AllBytes (xs ++ rest) = subst AllBytes split bs in
    record {
      is_prefix = split ∙ ap (λ t. t ++ rest) (elems_all n xs len);
      bytes = All-left IsByte xs rest all;
      rest_bytes = All-right IsByte xs rest all;
    }

pub u16_bytes-elems :
    {n : ℕ} {s xs rest : Bytes} (f : Filled n s xs rest) (i j : ℕ)
    → u16_bytes (be16 (get_or xs i 0) (get_or xs j 0)) ≡ get_or xs i 0 ∷ get_or xs j 0 ∷ []
u16_bytes-elems {xs = xs} f i j =
    u16_bytes-be16 _ _ (get_or-IsByte xs i f.bytes) (get_or-IsByte xs j f.bytes)
