-- ===== src/Socks/Login.antt =====
-- What lets a client of the SOCKS5 server through the handshake.
use ruproxy.Prelude.{
  ◌≡◌, refl, sym, ap, ap₂, ◌∙◌, Bool, true, false, List, [], ◌∷◌, ◌++◌, ◌==◌, length, if◌then◌else◌,
  arith, ◌⊎◌, inl, inr, append_assoc, Bool-cases, ==_iff,
}
use ruproxy.Bytes.{Bytes, bytes_eq_iff}
use ruproxy.Io.{
  Result, bail, authentication_failed, ok, err, guard, read_u8, read_exact, unsupported_version,
  guard_inv, read_exact_inv, read_u8_inv,
}
use ruproxy.Io.Talk.{Talk, go_on, write_all, hear, ◌>>◌}
use ruproxy.Socks.{
  SocksUser, is_user, is_empty, contains, ver, method_password, login, choose_method, greet,
  handshake,
}
use ruproxy.Text.Lossy.{from_utf8_lossy}

-- What is written has no part in going on.
from_go_on {ℓ κ ι} :
    {A : Type ℓ} {B : Type κ} {P : Type ι} (m : Bytes × Result (A × Bytes)) (f : A → Talk B)
    {r : B × Bytes}
    → (go_on m f).1 ≡ ok r
    → ((a : A) (s : Bytes) → m.1 ≡ ok (a, s) → (f a s).1 ≡ ok r → P)
    → P
from_go_on (out, ok (a, s)) f h go = go a s refl h
from_go_on (out, err e) f h go = cc

-- `u` is configured, and these are its name and password.
abbrev pub IsLogin : List SocksUser → Bytes → Bytes → Type 0
IsLogin [] uname passwd = ⊥
IsLogin (u ∷ users) uname passwd =
    ((u.username ≡ uname) × (u.password ≡ passwd)) ⊎ IsLogin users uname passwd

is_user-IsLogin :
    (users : List SocksUser) (uname passwd : Bytes)
    → is_user users uname passwd ≡ true
    → IsLogin users uname passwd
is_user-IsLogin [] uname passwd h = cc
is_user-IsLogin (u ∷ users) uname passwd h = ground (
  arith,
  bytes_eq_iff u.username uname,
  bytes_eq_iff u.password passwd,
  is_user-IsLogin users uname passwd,
)

-- What a client sends.
abbrev pub greeting : Bytes → Bytes
greeting methods = ver ∷ length methods ∷ methods

abbrev pub credentials : Bytes → Bytes → Bytes
credentials uname passwd = 0x01 ∷ length uname ∷ (uname ++ (length passwd ∷ passwd))

pub credentials-append :
    (uname passwd rest : Bytes)
    → credentials uname passwd ++ rest
      ≡ 0x01 ∷ length uname ∷ (uname ++ (length passwd ∷ (passwd ++ rest)))
credentials-append uname passwd rest =
    ap (λ x. 0x01 ∷ length uname ∷ x) (append_assoc uname (length passwd ∷ passwd) rest)

accepted :
    (b : Bool) (s : Bytes) {rest : Bytes}
    → ((if b
          then write_all (0x01 ∷ 0x00 ∷ [])
          else (write_all (0x01 ∷ 0x01 ∷ []) >> hear (bail authentication_failed)))
        s).1
      ≡ ok (tt, rest)
    → (b ≡ true) × (s ≡ rest)
accepted true s h = (refl, cc)
accepted false s h = cc

login_inv :
    (users : List SocksUser) (s rest : Bytes)
    → (login users s).1 ≡ ok (tt, rest)
    → (uname : Bytes) × (passwd : Bytes) × (s ≡ credentials uname passwd ++ rest)
      × IsLogin users (from_utf8_lossy uname) (from_utf8_lossy passwd)
unfolding login
login_inv users s rest h =
    from_go_on ([], read_u8 s) _ h
      λ v s1 read1 h1.
        from_go_on ([], guard (v == 0x01) unsupported_version s1) _ h1
          λ u2 s2 g2 h2.
            from_go_on ([], read_u8 s2) _ h2
              λ ulen s3 read3 h3.
                from_go_on ([], read_exact ulen s3) _ h3
                  λ uname s4 read4 h4.
                    from_go_on ([], read_u8 s4) _ h4
                      λ plen s5 read5 h5.
                        from_go_on ([], read_exact plen s5) _ h5
                          λ passwd s6 read6 h6.
                            let (version, same2) =
                              guard_inv (v == 0x01) unsupported_version s1 g2 in
                            let (split4, len4) = read_exact_inv ulen s3 read4 in
                            let (split6, len6) = read_exact_inv plen s5 read6 in
                            let checked =
                              accepted
                                (is_user users (from_utf8_lossy uname) (from_utf8_lossy passwd)) s6
                                h6 in
                            let shape = credentials-append uname passwd rest in
                            let one = (==_iff v 1).0 version in
                            let e1 = read_u8_inv s read1 in
                            let e3 = read_u8_inv s2 read3 in
                            let e5 = read_u8_inv s4 read5 in
                            (
                              uname,
                              passwd,
                              e1
                                  ∙ ap₂ ◌∷◌ one (
                                      same2
                                      ∙ e3
                                      ∙ ap₂ ◌∷◌ (sym len4) (
                                          split4
                                          ∙ ap (λ x. uname ++ x)
                                              (e5
                                                ∙ ap₂ ◌∷◌ (sym len6)
                                                    (split6 ∙ ap (λ x. passwd ++ x) checked.1))))
                                  ∙ sym shape,
                              is_user-IsLogin users _ _ checked.0,
                            )

chosen :
    (users : List SocksUser) (methods s : Bytes) {rest : Bytes}
    → is_empty users ≡ false
    → (choose_method users methods s).1 ≡ ok (tt, rest)
    → (contains methods method_password ≡ true) × ((login users s).1 ≡ ok (tt, rest))
unfolding choose_method
chosen users methods s e h = elim (Bool-cases (contains methods method_password)) [
  | inl c ↦ (c, rw (e, c) at h)
  | inr c ↦ cc (rw (e, c) at h)
]

-- With users configured, a target is dialled only for a client that offers the password method and
-- sends, after its greeting, a name and a password whose lossy texts are those of one configured
-- user.
pub handshake-IsLogin :
    (users : List SocksUser) (s : Bytes) {target rest : Bytes}
    → is_empty users ≡ false
    → (handshake users s).1 ≡ ok (target, rest)
    → (methods : Bytes) × (uname : Bytes) × (passwd : Bytes) × (tail : Bytes) × (s
        ≡ greeting methods ++ (credentials uname passwd ++ tail))
      × (contains methods method_password ≡ true)
      × IsLogin users (from_utf8_lossy uname) (from_utf8_lossy passwd)
unfolding handshake greet
handshake-IsLogin users s some' h = from_go_on (greet users s) _ h λ u t greeted h1.
    from_go_on ([], read_u8 s) _ greeted
      λ v s1 read1 k1.
        from_go_on ([], guard (v == ver) unsupported_version s1) _ k1
          λ u2 s2 g2 k2.
            from_go_on ([], read_u8 s2) _ k2
              λ n s3 read3 k3.
                from_go_on ([], read_exact n s3) _ k3
                  λ methods s4 read4 k4.
                    let (version, same2) = guard_inv (v == ver) unsupported_version s1 g2 in
                    let (split4, len4) = read_exact_inv n s3 read4 in
                    let (offered, logged) = chosen users methods s4 some' k4 in
                    let (uname, passwd, sent, found) = login_inv users s4 t logged in
                    (
                      methods,
                      uname,
                      passwd,
                      t,
                      read_u8_inv s read1
                          ∙ ap₂ ◌∷◌ ((==_iff v ver).0 version) (
                              same2
                              ∙ read_u8_inv s2 read3
                              ∙ ap₂ ◌∷◌ (sym len4) (split4 ∙ ap (λ x. methods ++ x) sent)),
                      offered,
                      found,
                    )
