-- ===== src/Socks/Session.antt =====
-- A whole exchange with a client that behaves, from the greeting to the last reply.
use ruproxy.Prelude.{
  ℕ, ◌/◌, ◌%◌, ◌≡◌, refl, Bool, true, false, List, [], ◌∷◌, ◌++◌, length, if◌then◌else◌, arith, inl,
  inr, append_assoc, Bool-cases,
}
use ruproxy.Bytes.{Bytes, bytes_eq_iff, u16_bytes, IsU16, be16}
use ruproxy.Io.{Result, ok, err, read_u8, read_u16, read_exact, read_exact-append, connect_failed}
use ruproxy.Socks.{
  SocksUser, is_user, is_empty, contains, ver, method_password, cmd_connect, login, choose_method,
  greet, read_request, handshake, handle, dial, send_reply, reply_bytes, rep_success,
  rep_general_failure, target_host, check_command,
}
use ruproxy.Socks.Login.{greeting, credentials, IsLogin}
use ruproxy.Target.{Host, ip4, name, ip6, host_text, host_body, IsHost, target_text}
use ruproxy.Target.Read.{atyp_of, host_reader, host_reader-host_body}
use ruproxy.Text.Lossy.{from_utf8_lossy}

-- The reserved byte is free.
abbrev pub connect_bytes : ℕ → Host → ℕ → Bytes
connect_bytes rsv host port =
    ver ∷ cmd_connect ∷ rsv ∷ atyp_of host ∷ (host_body host ++ u16_bytes port)

-- Both replies to a target that is dialled.
abbrev pub dialled : (Bytes → Bool) → Bytes → Bytes → Bytes × Result (Bytes × Bytes)
dialled answers target rest =
    if answers target
    then (reply_bytes rep_success, ok (target, rest))
    else (reply_bytes rep_general_failure, err connect_failed)

IsLogin-is_user :
    (users : List SocksUser) (uname passwd : Bytes)
    → IsLogin users uname passwd
    → is_user users uname passwd ≡ true
IsLogin-is_user [] uname passwd h = elim h [ ]
IsLogin-is_user (u ∷ users) uname passwd h = ground (
  arith,
  bytes_eq_iff u.username uname,
  bytes_eq_iff u.password passwd,
  IsLogin-is_user users uname passwd,
)

target_host-atyp_of :
    (host : Host) (s : Bytes) → target_host (atyp_of host) s ≡ ([], host_reader host s)
unfolding target_host
target_host-atyp_of (ip4 ip) s = refl
target_host-atyp_of (name d) s = refl
target_host-atyp_of (ip6 ip) s = refl

read_request-connect_bytes :
    (rsv : ℕ) (host : Host) (port : ℕ) (rest : Bytes)
    → IsU16 port
    → IsHost host
    → read_request (connect_bytes rsv host port ++ rest)
      ≡ ([], ok (target_text (host_text host) port, rest))
unfolding read_request read_u8 read_u16 read_exact check_command
read_request-connect_bytes rsv host port rest p h =
    let tail = u16_bytes port ++ rest in
    let shape = append_assoc (host_body host) (u16_bytes port) rest in
    let same : be16 (port / 256 % 256) (port % 256) ≡ port = omega arith in
    rw
      (
        shape,
        target_host-atyp_of host (host_body host ++ tail),
        host_reader-host_body host tail h,
        same,
      )
      refl

login-credentials :
    (users : List SocksUser) (uname passwd rest : Bytes)
    → IsLogin users (from_utf8_lossy uname) (from_utf8_lossy passwd)
    → login users (credentials uname passwd ++ rest)
      ≡ (ver ∷ method_password ∷ 0x01 ∷ 0x00 ∷ [], ok (tt, rest))
unfolding login read_u8
login-credentials users uname passwd rest h =
    rw
      (
        append_assoc uname (length passwd ∷ passwd) rest,
        read_exact-append (length uname) uname (length passwd ∷ (passwd ++ rest)) refl,
        read_exact-append (length passwd) passwd rest refl,
        IsLogin-is_user users _ _ h,
      )
      refl

dial_lem :
    (answers : Bytes → Bool) (target rest : Bytes)
    → dial answers target rest ≡ dialled answers target rest
unfolding dial send_reply
dial_lem answers target rest = elim (Bool-cases (answers target)) [
  | inl e ↦ rw e refl
  | inr e ↦ rw e refl
]

is_empty_of_IsLogin :
    (users : List SocksUser) (uname passwd : Bytes)
    → IsLogin users uname passwd
    → is_empty users ≡ false
is_empty_of_IsLogin [] uname passwd h = elim h [ ]
is_empty_of_IsLogin (u ∷ users) uname passwd h = refl

-- A client that offers the password method, logs in as a configured user and asks to CONNECT is
-- answered with the welcome and the reply for success or general failure, as its target answers or
-- not, and what it sent after its request is left; the port fits 16 bits, and the host is an
-- address, or a name of 1 to 255 bytes of UTF-8.
pub handle-login :
    (answers : Bytes → Bool) (users : List SocksUser) (methods uname passwd : Bytes) (rsv : ℕ)
    (host : Host) (port : ℕ) (rest : Bytes)
    → contains methods method_password ≡ true
    → IsLogin users (from_utf8_lossy uname) (from_utf8_lossy passwd)
    → IsU16 port
    → IsHost host
    → handle answers users
        (greeting methods ++ (credentials uname passwd ++ (connect_bytes rsv host port ++ rest)))
      ≡ (
        ver
            ∷ method_password
            ∷ 0x01
            ∷ 0x00
            ∷ (dialled answers (target_text (host_text host) port) rest).0,
        (dialled answers (target_text (host_text host) port) rest).1,
      )
unfolding handle handshake greet choose_method read_u8
handle-login answers users methods uname passwd rsv host port rest c l p h =
    let tail = credentials uname passwd ++ (connect_bytes rsv host port ++ rest) in
    rw
      (
        read_exact-append (length methods) methods tail refl,
        is_empty_of_IsLogin users _ _ l,
        c,
        login-credentials users uname passwd (connect_bytes rsv host port ++ rest) l,
        read_request-connect_bytes rsv host port rest p h,
        dial_lem answers (target_text (host_text host) port) rest,
      )
      refl
