-- ===== src/Io/Talk.antt =====
-- A connection that is read and answered in turn: what is written before an error is sent all the
-- same.
use ruproxy.Prelude.{[], ◌++◌}
use ruproxy.Bytes.{Bytes}
use ruproxy.Io.{Result, Reader, ok, err}

-- The bytes written, and the result with what is left to read.
abbrev pub Talk {ℓ} : Type ℓ → Type ℓ
Talk A = Bytes → Bytes × Result (A × Bytes)

abbrev pub after {ℓ} :
    {B : Type ℓ} → Bytes → Bytes × Result (B × Bytes) → Bytes × Result (B × Bytes)
after out (more, r) = (out ++ more, r)

abbrev pub go_on {ℓ κ} :
    {A : Type ℓ} {B : Type κ}
    → Bytes × Result (A × Bytes)
    → (A → Talk B)
    → Bytes × Result (B × Bytes)
go_on (out, ok (a, s)) f = after out (f a s)
go_on (out, err e) f = (out, err e)

infixl 5 ◌>>=◌ ◌>>◌
abbrev pub ◌>>=◌ {ℓ κ} : {A : Type ℓ} {B : Type κ} → Talk A → (A → Talk B) → Talk B
◌>>=◌ m f s = go_on (m s) f

abbrev pub ◌>>◌ {ℓ} : {B : Type ℓ} → Talk (Unit {0}) → Talk B → Talk B
m >> k = m >>= λ _. k

-- What only reads.
abbrev pub hear {ℓ} : {A : Type ℓ} → Reader A → Talk A
hear m s = ([], m s)

abbrev pub write_all : Bytes → Talk (Unit {0})
write_all bs s = (bs, ok (tt, s))
