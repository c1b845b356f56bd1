-- ===== src/Io.antt =====
-- Results of fallible calls (`anyhow::Result`, `io::Result`) and reading from the front of a byte
-- stream: `read_exact`, `read_u8` and `read_u16` of tokio and std. A reader takes the bytes that
-- the peer sends before it closes its side, and returns those not yet consumed.
mod Errors
pub mod Talk
pub use Errors.*
use ruproxy.Prelude.{
  ℕ, zero, suc, ◌<◌, ◌≡◌, refl, ap, Bool, true, false, [], ◌∷◌, ◌++◌, length, ◌⊎◌, inl, inr, arith,
  get_or, All, ap₂, Option, none, some,
}
use ruproxy.Bytes.{Bytes, be16}

pub data Result {ℓ} (A : Type ℓ) : Type ℓ where
  ok : A → Result A
  err : Fault → Result A

abbrev pub and_then {ℓ κ} : {A : Type ℓ} {B : Type κ} → Result A → (A → Result B) → Result B
and_then (ok a) f = f a
and_then (err e) f = err e

-- `ok_or` and `map_err` on what may be missing.
abbrev pub or_fault {ℓ} : {A : Type ℓ} → Fault → Option A → Result A
or_fault e none = err e
or_fault e (some a) = ok a

-- A value is read from the front of the stream.
abbrev pub Reader {ℓ} : Type ℓ → Type ℓ
Reader A = Bytes → Result (A × Bytes)

abbrev pub step {ℓ κ} :
    {A : Type ℓ} {B : Type κ} → Result (A × Bytes) → (A → Reader B) → Result (B × Bytes)
step (ok (a, s)) f = f a s
step (err e) f = err e

infixl 5 ◌>>=◌ ◌>>◌
abbrev pub ◌>>=◌ {ℓ κ} : {A : Type ℓ} {B : Type κ} → Reader A → (A → Reader B) → Reader B
◌>>=◌ m f s = step (m s) f

abbrev pub ◌>>◌ {ℓ} : {B : Type ℓ} → Reader (Unit {0}) → Reader B → Reader B
m >> k = m >>= λ _. k

abbrev pub done {ℓ} : {A : Type ℓ} → A → Reader A
done a s = ok (a, s)

abbrev pub bail {ℓ} : {A : Type ℓ} → Fault → Reader A
bail e s = err e

-- `?` on a result that does not touch the stream.
abbrev pub lift {ℓ} : {A : Type ℓ} → Result A → Reader A
lift (ok a) s = ok (a, s)
lift (err e) s = err e

-- `ensure!(b, …)`: go on if the test holds.
abbrev pub guard : Bool → Fault → Reader (Unit {0})
guard true e s = ok (tt, s)
guard false e s = err e

unfoldable pub read_u8 : Reader ℕ
read_u8 [] = err unexpected_eof
read_u8 (b ∷ s) = ok (b, s)

-- `read_exact` into a buffer of `n` bytes.
unfoldable pub read_exact : ℕ → Reader Bytes
read_exact zero s = ok ([], s)
read_exact (suc n) [] = err unexpected_eof
read_exact (suc n) (b ∷ s) = step (read_exact n s) (λ bs. done (b ∷ bs))

-- `read_u16`, big-endian.
unfoldable pub read_u16 : Reader ℕ
unfolding read_exact
read_u16 = do b ← read_exact 2; done (be16 (get_or b 0 0) (get_or b 1 0))

pub read_exact-append :
    (n : ℕ) (xs rest : Bytes) → length xs ≡ n → read_exact n (xs ++ rest) ≡ ok (xs, rest)
unfolding read_exact
read_exact-append zero [] rest h = refl
read_exact-append zero (x ∷ xs) rest h = absurd (omega arith)
read_exact-append (suc n) [] rest h = absurd (omega arith)
read_exact-append (suc n) (x ∷ xs) rest h = rw (read_exact-append n xs rest (omega arith))

pub step_inv {ℓ κ} :
    {A : Type ℓ} {B : Type κ} (m : Result (A × Bytes)) (f : A → Reader B) {r : B × Bytes}
    → step m f ≡ ok r
    → (a : A) × (s : Bytes) × (m ≡ ok (a, s)) × (f a s ≡ ok r)
step_inv (ok (a, s)) f h = (a, s, refl, h)
step_inv (err e) f h = cc

-- The same for a proof that goes on from what was read.
pub from_step {ℓ κ ι} :
    {A : Type ℓ} {B : Type κ} {P : Type ι} (m : Result (A × Bytes)) {f : A → Reader B}
    {r : B × Bytes}
    → step m f ≡ ok r
    → ((a : A) (s : Bytes) → m ≡ ok (a, s) → f a s ≡ ok r → P)
    → P
from_step (ok (a, s)) h go = go a s refl h
from_step (err e) h go = cc

pub read_exact_inv :
    (n : ℕ) (s : Bytes) {xs rest : Bytes}
    → read_exact n s ≡ ok (xs, rest)
    → (s ≡ xs ++ rest) × (length xs ≡ n)
unfolding read_exact
read_exact_inv zero s h = (ground arith, ground arith)
read_exact_inv (suc n) [] h = cc
read_exact_inv (suc n) (b ∷ s) {xs} {rest} h =
    let (bs, s', read, e) = step_inv (read_exact n s) (λ bs. done (b ∷ bs)) h in
    let (split, len) = read_exact_inv n s read in ground arith

pub read_exact_short : (n : ℕ) (s : Bytes) → length s < n → read_exact n s ≡ err unexpected_eof
unfolding read_exact
read_exact_short zero s h = absurd (omega arith)
read_exact_short (suc n) [] h = refl
read_exact_short (suc n) (b ∷ s) h = rw (read_exact_short n s (omega arith))

pub read_u8_inv : (s : Bytes) {b : ℕ} {rest : Bytes} → read_u8 s ≡ ok (b, rest) → s ≡ b ∷ rest
unfolding read_u8
read_u8_inv [] h = cc
read_u8_inv (x ∷ s) h = ground arith

pub Result-cases {ℓ} :
    {A : Type ℓ} (r : Result A) → ((a : A) × (r ≡ ok a)) ⊎ ((e : Fault) × (r ≡ err e))
Result-cases (ok a) = inl (a, refl)
Result-cases (err e) = inr (e, refl)

pub ok_inj {ℓ} : {A : Type ℓ} {a b : A} {s t : Bytes} → done a s ≡ done b t → (a ≡ b) × (s ≡ t)
ok_inj h = (cc, cc)

pub done_inv {ℓ} :
    {A : Type ℓ} (enc : A → Bytes) (a : A) (s : Bytes) {b : A} {t : Bytes}
    → done a s ≡ done b t
    → enc a ++ s ≡ enc b ++ t
done_inv enc a s h = let (e, f) = ok_inj h in ap₂ (λ x y. enc x ++ y) e f

pub lift_inv {ℓ} :
    {A : Type ℓ} (m : Result A) (s : Bytes) {d : A} {t : Bytes}
    → lift m s ≡ done d t
    → (m ≡ ok d) × (s ≡ t)
lift_inv (ok d) s h = (cc, cc)
lift_inv (err e) s h = cc

pub guard_inv :
    (b : Bool) (e : Fault) (s : Bytes) {r : Unit {0} × Bytes}
    → guard b e s ≡ ok r
    → (b ≡ true) × (s ≡ r.1)
guard_inv true e s h = (refl, cc)
guard_inv false e s h = cc
