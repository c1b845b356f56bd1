-- ===== src/Tests/Padding.antt =====
-- The theorem on src/anytls/padding.rs at the built-in scheme, and that scheme itself.
use ruproxy.Text.{is_utf8}
use ruproxy.Anytls.Padding.{PaddingScheme, update}
use ruproxy.Anytls.Padding.Update.{IsScheme, update-IsScheme}
use ruproxy.Bytes.{Bytes}
use ruproxy.Prelude.{ℕ, ◌≡◌, refl, true, false, [], ◌∷◌, arith}

-- The first lines of DEFAULT_SCHEME_BYTES.
abbrev raw : Bytes
raw =
    b's' ∷ b't' ∷ b'o' ∷ b'p' ∷ b'=' ∷ b'8' ∷ 10 ∷ b'0' ∷ b'=' ∷ b'3' ∷ b'0' ∷ b'-' ∷ b'3' ∷ b'0'
    ∷ 10 ∷ b'1' ∷ b'=' ∷ b'1' ∷ b'-' ∷ b'4' ∷ b',' ∷ b'c' ∷ []

abbrev md5 : Bytes → Bytes
md5 s = []

abbrev pick : ℕ → ℕ → ℕ → ℕ → ℕ
pick i j lo hi = lo

abbrev current : PaddingScheme
current = record { stop = 1; rules = []; raw = []; md5_hex = [] }

update-IsScheme_example :
    IsScheme md5 pick (update md5 pick raw current).0
    × (((update md5 pick raw current).1 ≡ true) → (update md5 pick raw current).0.raw ≡ raw)
    × (((update md5 pick raw current).1 ≡ false) → (update md5 pick raw current).0 ≡ current)
unfolding is_utf8
update-IsScheme_example =
    update-IsScheme md5 pick raw current (λ i j lo hi h. (omega arith, omega arith))
      (omega arith, tt, refl, refl)
