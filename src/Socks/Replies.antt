-- ===== src/Socks/Replies.antt =====
-- What the SOCKS5 server has written when it ends, whatever the client sent.
use ruproxy.Prelude.{◌≡◌, List, [], ◌∷◌, ◌++◌, if◌then◌else◌, ◌⊎◌}
use ruproxy.Bytes.{Bytes}
use ruproxy.Io.{
  Fault, unexpected_eof, invalid_utf8, unsupported_version, no_acceptable_auth,
  authentication_failed, bad_atyp, unsupported_command, connect_failed,
}
use ruproxy.Socks.{
  SocksUser, is_empty, ver, method_password, method_no_auth, method_no_acceptable, reply_bytes,
  rep_general_failure, rep_cmd_not_supported, rep_atyp_not_supported,
}
use ruproxy.Socks.Ensures.{Ensures}

-- The bytes that let a client through to its request.
abbrev pub welcome : List SocksUser → Bytes
welcome users =
    if is_empty users then ver ∷ method_no_auth ∷ [] else ver ∷ method_password ∷ 0x01 ∷ 0x00 ∷ []

-- Everything written by the time of an error. A stream that ends, a wrong version and a name that is
-- no UTF-8 close the connection without an answer of their own.
abbrev pub Refused : List SocksUser → Bytes → Fault → Type 0
Refused users out no_acceptable_auth = out ≡ ver ∷ method_no_acceptable ∷ []
Refused users out authentication_failed = out ≡ ver ∷ method_password ∷ 0x01 ∷ 0x01 ∷ []
Refused users out bad_atyp = out ≡ welcome users ++ reply_bytes rep_atyp_not_supported
Refused users out unsupported_command = out ≡ welcome users ++ reply_bytes rep_cmd_not_supported
Refused users out connect_failed = out ≡ welcome users ++ reply_bytes rep_general_failure
Refused users out e =
    ((e ≡ unexpected_eof) ⊎ (e ≡ unsupported_version) ⊎ (e ≡ invalid_utf8))
    × ((out ≡ []) ⊎ (out ≡ ver ∷ method_password ∷ []) ⊎ (out ≡ welcome users))

module _ (users : List SocksUser) where
  -- The errors of the second half stand behind the welcome.
  abbrev Late : Bytes → Fault → Type 0
  Late out e = Refused users (welcome users ++ out) e
