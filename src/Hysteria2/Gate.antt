-- ===== src/Hysteria2/Gate.antt =====
-- `handle_connection` of src/hysteria2/server.rs: the requests before the authentication.
pub mod Passed
use ruproxy.Hysteria2.Tcp.{handle_tcp_bidi}
use ruproxy.Text.{decimal}
use ruproxy.Io.{Result}
use ruproxy.Bytes.{bytes_eq, Bytes}
use ruproxy.Prelude.{
  ℕ, zero, suc, ◌+◌, ◌-◌, ◌*◌, ◌/◌, ◌%◌, ◌^◌, ◌≤◌, ◌<◌, ◌≡◌, ◌≢◌, refl, sym, ap, ap₂, ◌∙◌, subst,
  Bool, true, false, not, ◌&&◌, ◌||◌, Option, none, some, List, [], ◌∷◌, ◌++◌, ◌==◌, ltb, leb,
  length, take, drop, get_or, if◌then◌else◌, arith, All, ◌⊎◌, inl, inr, min, max, bit_and, bit_or,
  bit_xor, ◌↔◌, append_assoc, append-nil, length-append, Bool-cases,
}

abbrev pub auth_host : Bytes
auth_host = b'h' ∷ b'y' ∷ b's' ∷ b't' ∷ b'e' ∷ b'r' ∷ b'i' ∷ b'a' ∷ []

abbrev pub auth_path : Bytes
auth_path = b'/' ∷ b'a' ∷ b'u' ∷ b't' ∷ b'h' ∷ []

pub data AuthConfig : Type 0 where
  password : Bytes → AuthConfig
  open_to_all : AuthConfig

-- What the loop looks at in a request: its host, if the URI has one, and the header Hysteria-Auth,
-- if it is there and a text; and whether the client takes the answer.
pub record HttpRequest : Type 0 where
  pub is_post : Bool
  pub host : Option Bytes
  pub path : Bytes
  pub hysteria_auth : Option Bytes
  pub takes_answer : Bool

-- What `h3.accept` gives: a request, one that `resolve_request` refuses, the end, or an error.
pub data Accepted : Type 0 where
  request : HttpRequest → Accepted
  unresolved closed failed : Accepted

-- Where the loop stands: it waits for more, it let the client pass with the rate that it told it,
-- it refused it, or the connection is gone.
pub data Gate : Type 0 where
  waiting refused gone : Gate
  passed : Bytes → Gate

abbrev pub unwrap_or : Option Bytes → Bytes → Bytes
unwrap_or none d = d
unwrap_or (some x) d = x

abbrev pub is_auth : HttpRequest → Bool
is_auth r = r.is_post && bytes_eq (unwrap_or r.host []) auth_host && bytes_eq r.path auth_path

abbrev pub accepts : AuthConfig → Bytes → Bool
accepts (password p) auth_val = bytes_eq auth_val p
accepts open_to_all auth_val = true

-- The rate that the client is told, `0` for none.
abbrev pub cc_rx : Option ℕ → Bytes
cc_rx none = b'0' ∷ []
cc_rx (some bps) = decimal bps

-- The loop over the requests; the other result is the requests that `masquerade` answers.
unfoldable pub auth_loop : AuthConfig → Option ℕ → List Accepted → Gate × List HttpRequest
auth_loop auth down_bps [] = (waiting, [])
auth_loop auth down_bps (unresolved ∷ rest) = auth_loop auth down_bps rest
auth_loop auth down_bps (closed ∷ rest) = (gone, [])
auth_loop auth down_bps (failed ∷ rest) = (gone, [])
auth_loop auth down_bps (request r ∷ rest) =
    let more = auth_loop auth down_bps rest in
    if is_auth r
    then (
      (if accepts auth (unwrap_or r.hysteria_auth [])
          then if r.takes_answer then passed (cc_rx down_bps) else gone
          else refused),
      [],
    )
    else (more.0, r ∷ more.1)

-- What the loops behind the authentication read from each stream of the client.
abbrev pub tcp_streams : List Bytes → List (Result (Option Bytes × Bytes))
tcp_streams [] = []
tcp_streams (s ∷ ss) = handle_tcp_bidi s ∷ tcp_streams ss

-- Streams are accepted behind the loop only.
abbrev pub behind : Gate → List Bytes → List (Result (Option Bytes × Bytes))
behind (passed rate) streams = tcp_streams streams
behind _ streams = []

-- `handle_connection`, as far as TCP streams go.
unfoldable pub handle_connection :
    AuthConfig → Option ℕ → List Accepted → List Bytes → List (Result (Option Bytes × Bytes))
handle_connection auth down_bps requests streams =
    behind (auth_loop auth down_bps requests).0 streams
