-- ===== src/Socks/Ensures.antt =====
-- Errors of reading, and the rules for what is written by the end of a part of the exchange.
use ruproxy.Prelude.{
  ℕ, zero, suc, ◌≡◌, refl, sym, subst, Bool, true, false, [], ◌∷◌, ◌++◌, arith, ◌⊎◌, inl, inr,
}
use ruproxy.Bytes.{Bytes}
use ruproxy.Io.{
  Result, Fault, ok, err, guard, read_u8, read_u16, read_exact, unexpected_eof, invalid_utf8,
  unsupported_version,
}
use ruproxy.Io.Talk.{Talk, go_on, after}
use ruproxy.Target.Read.{ip4_host, name_host, ip6_host}
use ruproxy.Text.{from_utf8}

-- What holds of the bytes written, with an error or without.
abbrev pub Ensures {ℓ} :
    {A : Type ℓ} → (Bytes → Type 0) → (Bytes → Fault → Type 0) → Bytes × Result (A × Bytes) → Type 0
Ensures Q E (out, ok r) = Q out
Ensures Q E (out, err e) = E out e

-- The errors of reading.
abbrev pub IsSilent : Fault → Type 0
IsSilent e = (e ≡ unexpected_eof) ⊎ (e ≡ unsupported_version) ⊎ (e ≡ invalid_utf8)

abbrev pub Reads {ℓ} : {A : Type ℓ} → Result (A × Bytes) → Type 0
Reads (ok r) = Unit
Reads (err e) = IsSilent e

pub read_u8-Reads : (s : Bytes) → Reads (read_u8 s)
unfolding read_u8
read_u8-Reads [] = inl refl
read_u8-Reads (b ∷ s) = tt

pub read_exact-Reads : (n : ℕ) (s : Bytes) → Reads (read_exact n s)
unfolding read_exact
read_exact-Reads zero s = tt
read_exact-Reads (suc n) [] = inl refl
read_exact-Reads (suc n) (b ∷ s) = ground (arith, read_exact-Reads n s)

pub read_u16-Reads : (s : Bytes) → Reads (read_u16 s)
unfolding read_u16
read_u16-Reads s = ground (arith, read_exact-Reads 2 s)

pub guard-Reads : (b : Bool) (s : Bytes) → Reads (guard b unsupported_version s)
guard-Reads true s = tt
guard-Reads false s = inr (inl refl)

pub ip4_host-Reads : (s : Bytes) → Reads (ip4_host s)
unfolding ip4_host
ip4_host-Reads s = ground (arith, read_exact-Reads 4 s)

pub ip6_host-Reads : (s : Bytes) → Reads (ip6_host s)
unfolding ip6_host
ip6_host-Reads s = ground (arith, read_exact-Reads 16 s)

pub name_host-Reads : (s : Bytes) → Reads (name_host s)
unfolding name_host from_utf8 read_u8
name_host-Reads [] = inl refl
name_host-Reads (n ∷ s) = ground (arith, read_exact-Reads n s)

-- The rules for reading, for writing, and for one part behind another.
pub Ensures-hear {ℓ κ} :
    {A : Type ℓ} {B : Type κ} (Q : Bytes → Type 0) (E : Bytes → Fault → Type 0)
    (r : Result (A × Bytes)) (f : A → Talk B)
    → Reads r
    → ((e : Fault) → IsSilent e → E [] e)
    → ((a : A) (s : Bytes) → Ensures Q E (f a s))
    → Ensures Q E (go_on ([], r) f)
Ensures-hear Q E (ok (a, s)) f h silent go = go a s
Ensures-hear Q E (err e) f h silent go = silent e h

pub Ensures-after {ℓ} :
    {A : Type ℓ} (Q : Bytes → Type 0) (E : Bytes → Fault → Type 0) (w : Bytes)
    (m : Bytes × Result (A × Bytes))
    → Ensures (λ out. Q (w ++ out)) (λ out e. E (w ++ out) e) m
    → Ensures Q E (after w m)
Ensures-after Q E w (out, ok r) h = h
Ensures-after Q E w (out, err e) h = h

pub Ensures-go_on {ℓ κ} :
    {A : Type ℓ} {B : Type κ} (w : Bytes) (Q : Bytes → Type 0) (E : Bytes → Fault → Type 0)
    (m : Bytes × Result (A × Bytes)) (f : A → Talk B)
    → Ensures (λ out. out ≡ w) E m
    → ((a : A) (s : Bytes) → Ensures (λ out. Q (w ++ out)) (λ out e. E (w ++ out) e) (f a s))
    → Ensures Q E (go_on m f)
Ensures-go_on w Q E (out, ok (a, s)) f h go =
    Ensures-after Q E out (f a s)
      (subst (λ x. Ensures (λ o. Q (x ++ o)) (λ o e. E (x ++ o) e) (f a s)) (sym h) (go a s))
Ensures-go_on w Q E (out, err e) f h go = h
