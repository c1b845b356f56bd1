-- ===== src/Tests/Socks.antt =====
-- The theorems on src/socks, at concrete inputs.
use ruproxy.Target.Read.{name_host}
use ruproxy.Bytes.{Bytes, bytes_eq}
use ruproxy.Prelude.{◌≡◌, refl, [], ◌∷◌, ◌++◌, arith, List, Bool, true, inl}
use ruproxy.Io.{ok, read_u8, read_u16, read_exact}
use ruproxy.Target.{Host, name, target_text}
use ruproxy.Text.{is_utf8, from_utf8}
use ruproxy.Text.Lossy.{from_utf8_lossy, lossy_run, lossy_start}
use ruproxy.Socks.{
  SocksUser, handle, handshake, contains, method_password, reply_bytes, rep_success, greet,
  choose_method, login, read_request, target_host, check_command,
}
use ruproxy.Socks.Login.{greeting, credentials, IsLogin, handshake-IsLogin}
use ruproxy.Socks.Session.{connect_bytes, handle-login}
use ruproxy.Socks.Ensures.{Ensures}

abbrev user : Bytes
user = b'u' ∷ []

abbrev secret : Bytes
secret = b'p' ∷ b'w' ∷ []

abbrev users : List SocksUser
users = record { username = user; password = secret } ∷ []

abbrev site : Host
site = name (b'a' ∷ b'.' ∷ b'b' ∷ [])

abbrev up : Bytes → Bool
up target = true

abbrev session : Bytes
session =
    greeting (0 ∷ 2 ∷ []) ++ (credentials user secret ++ (connect_bytes 0 site 443 ++ (9 ∷ [])))

handle-login_example : handle up users session ≡ (
  5 ∷ 2 ∷ 1 ∷ 0 ∷ reply_bytes rep_success,
  ok (target_text (b'a' ∷ b'.' ∷ b'b' ∷ []) 443, 9 ∷ []),
)
unfolding is_utf8 from_utf8_lossy lossy_run lossy_start
handle-login_example =
    handle-login up users (0 ∷ 2 ∷ []) user secret 0 site 443 (9 ∷ []) refl (inl (refl, refl))
      (omega arith) (refl, omega arith, omega arith)

-- The same session, up to the target.
session_dials : (handshake users session).1 ≡ ok (target_text (b'a' ∷ b'.' ∷ b'b' ∷ []) 443, 9 ∷ [])
unfolding handshake greet choose_method login read_request target_host check_command read_u8
    read_exact read_u16 name_host from_utf8 is_utf8 from_utf8_lossy lossy_run lossy_start bytes_eq
session_dials = refl

handshake-IsLogin_example :
    (methods : Bytes) × (uname : Bytes) × (passwd : Bytes) × (tail : Bytes) × (session
      ≡ greeting methods ++ (credentials uname passwd ++ tail))
    × (contains methods method_password ≡ true)
    × IsLogin users (from_utf8_lossy uname) (from_utf8_lossy passwd)
handshake-IsLogin_example = handshake-IsLogin users session refl session_dials
