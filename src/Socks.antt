-- ===== src/Socks.antt =====
-- The SOCKS5 server of src/socks/mod.rs: the handshake, the request and the replies. Whether a
-- target answers is a parameter; the bytes that are relayed afterwards are not modelled.
pub mod Ensures
pub mod Replies
pub mod Login
pub mod Session
use ruproxy.Prelude.{
  ℕ, Bool, not, ◌&&◌, ◌||◌, List, [], ◌∷◌, ◌++◌, ◌==◌, if◌then◌else◌, false, true,
}
use ruproxy.Bytes.{Bytes, bytes_eq}
use ruproxy.Io.{
  Result, Fault, read_u8, read_u16, read_exact, guard, bail, done, unsupported_version,
  no_acceptable_auth, authentication_failed, bad_atyp, unsupported_command, connect_failed,
}
use ruproxy.Io.Talk.{Talk, hear, write_all, ◌>>=◌, ◌>>◌}
use ruproxy.Target.{target_text}
use ruproxy.Target.Read.{ip4_host, name_host, ip6_host}
use ruproxy.Text.Lossy.{from_utf8_lossy}

abbrev pub ver : ℕ
ver = 0x05

abbrev pub method_no_auth : ℕ
method_no_auth = 0x00

abbrev pub method_password : ℕ
method_password = 0x02

abbrev pub method_no_acceptable : ℕ
method_no_acceptable = 0xff

abbrev pub cmd_connect : ℕ
cmd_connect = 0x01

abbrev pub atyp_ipv4 : ℕ
atyp_ipv4 = 0x01

abbrev pub atyp_domain : ℕ
atyp_domain = 0x03

abbrev pub atyp_ipv6 : ℕ
atyp_ipv6 = 0x04

abbrev pub rep_success : ℕ
rep_success = 0x00

abbrev pub rep_general_failure : ℕ
rep_general_failure = 0x01

abbrev pub rep_cmd_not_supported : ℕ
rep_cmd_not_supported = 0x07

abbrev pub rep_atyp_not_supported : ℕ
rep_atyp_not_supported = 0x08

pub record SocksUser : Type 0 where
  pub username : Bytes
  pub password : Bytes

abbrev pub is_empty {ℓ} : {A : Type ℓ} → List A → Bool
is_empty [] = true
is_empty (x ∷ xs) = false

-- `methods.contains(&m)`
abbrev pub contains : List ℕ → ℕ → Bool
contains [] m = false
contains (x ∷ xs) m = x == m || contains xs m

-- `cfg.users.iter().any(…)`
abbrev pub is_user : List SocksUser → Bytes → Bytes → Bool
is_user [] uname passwd = false
is_user (u ∷ users) uname passwd =
    (bytes_eq u.username uname && bytes_eq u.password passwd) || is_user users uname passwd

abbrev pub reply_bytes : ℕ → Bytes
reply_bytes rep = ver ∷ rep ∷ 0x00 ∷ atyp_ipv4 ∷ 0 ∷ 0 ∷ 0 ∷ 0 ∷ 0 ∷ 0 ∷ []

unfoldable pub send_reply : ℕ → Talk (Unit {0})
send_reply rep = write_all (reply_bytes rep)

-- The sub-negotiation of RFC 1929.
unfoldable pub login : List SocksUser → Talk (Unit {0})
login users = do
  write_all (ver ∷ method_password ∷ [])
  sub_ver ← hear read_u8
  hear (guard (sub_ver == 0x01) unsupported_version)
  ulen ← hear read_u8
  uname ← hear (read_exact ulen)
  plen ← hear read_u8
  passwd ← hear (read_exact plen)
  (if is_user users (from_utf8_lossy uname) (from_utf8_lossy passwd)
      then write_all (0x01 ∷ 0x00 ∷ [])
      else (do write_all (0x01 ∷ 0x01 ∷ []); hear (bail authentication_failed)))

unfoldable pub choose_method : List SocksUser → Bytes → Talk (Unit {0})
choose_method users methods =
    if not (is_empty users) && contains methods method_password
    then login users
    else if is_empty users && contains methods method_no_auth
    then write_all (ver ∷ method_no_auth ∷ [])
    else (do write_all (ver ∷ method_no_acceptable ∷ []); hear (bail no_acceptable_auth))

unfoldable pub greet : List SocksUser → Talk (Unit {0})
greet users = do
  v ← hear read_u8
  hear (guard (v == ver) unsupported_version)
  nmethods ← hear read_u8
  methods ← hear (read_exact nmethods)
  choose_method users methods

-- The match on the type of the address.
unfoldable pub target_host : ℕ → Talk Bytes
target_host atyp =
    if atyp == atyp_ipv4
    then hear ip4_host
    else if atyp == atyp_domain
    then hear name_host
    else if atyp == atyp_ipv6
    then hear ip6_host
    else (do send_reply rep_atyp_not_supported; hear (bail bad_atyp))

-- The command is looked at only when the whole request is read.
unfoldable pub check_command : ℕ → Bytes → Talk Bytes
check_command cmd target =
    if cmd == cmd_connect
    then hear (done target)
    else (do send_reply rep_cmd_not_supported; hear (bail unsupported_command))

unfoldable pub read_request : Talk Bytes
read_request = do
  ver2 ← hear read_u8
  hear (guard (ver2 == ver) unsupported_version)
  cmd ← hear read_u8
  rsv ← hear read_u8
  atyp ← hear read_u8
  host ← target_host atyp
  port ← hear read_u16
  check_command cmd (target_text host port)

-- Up to the target that is dialled.
unfoldable pub handshake : List SocksUser → Talk Bytes
handshake users = do greet users; read_request

-- `TcpStream::connect`, and the reply.
unfoldable pub dial : (Bytes → Bool) → Bytes → Talk Bytes
dial answers target =
    if answers target
    then (do send_reply rep_success; hear (done target))
    else (do send_reply rep_general_failure; hear (bail connect_failed))

unfoldable pub handle : (Bytes → Bool) → List SocksUser → Talk Bytes
handle answers users = do target ← handshake users; dial answers target
