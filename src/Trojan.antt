-- ===== src/Trojan.antt =====
-- The request of src/trojan/mod.rs: `decode_trojan`. SHA-224 and the hex encoding of its digest are
-- one parameter, the text that a password is compared as.
pub mod Accepted
pub mod Line
use ruproxy.Bytes.{Bytes, bytes_eq}
use ruproxy.Prelude.{
  ℕ, ◌-◌, Bool, ◌&&◌, [], ◌∷◌, ◌++◌, ◌==◌, ltb, leb, length, take, drop, if◌then◌else◌,
}
use ruproxy.Io.{
  Reader, Result, ok, err, read_u8, read_u16, read_exact, guard, bail, done, bad_auth,
  invalid_password, only_tcp_supported, bad_atyp, unexpected_eof, ◌>>=◌, ◌>>◌,
}
use ruproxy.Target.{target_text}
use ruproxy.Target.Read.{ip4_host, name_host, ip6_host}
use ruproxy.Text.Lossy.{from_utf8_lossy}

abbrev pub crlf : Bytes
crlf = 13 ∷ 10 ∷ []

-- `line.ends_with(b"\r\n")`
unfoldable pub ends_with : Bytes → Bytes → Bool
ends_with line suffix =
    leb (length suffix) (length line) && bytes_eq (drop (length line - length suffix) line) suffix

-- The loop, with the line so far: it ends with the line, or as soon as the line has more than 256
-- bytes.
unfoldable pub read_line : Bytes → Reader Bytes
unfolding ends_with
read_line line [] = err unexpected_eof
read_line line (b ∷ s) =
    let longer = read_line (line ++ (b ∷ [])) s in
    if ends_with (line ++ (b ∷ [])) crlf
    then ok (line ++ (b ∷ []), s)
    else if ltb 256 (length (line ++ (b ∷ [])))
    then err bad_auth
    else longer

unfoldable pub read_host : ℕ → Reader Bytes
read_host atyp =
    if atyp == 1
    then ip4_host
    else if atyp == 3
    then name_host
    else if atyp == 4
    then ip6_host
    else bail bad_atyp

-- Behind the line: the two bytes at the end are read, whatever they are.
unfoldable pub decode_request : Reader Bytes
decode_request = do
  cmd ← read_u8
  guard (cmd == 1) only_tcp_supported
  atyp ← read_u8
  host ← read_host atyp
  port ← read_u16
  end ← read_exact 2
  done (target_text host port)

-- `hex::encode(Sha224::digest(password.as_bytes()))`
module _ (token : Bytes → Bytes) where
  unfoldable pub decode_trojan : Bytes → Reader Bytes
  decode_trojan password = do
    line ← read_line []
    guard (bytes_eq (from_utf8_lossy (take (length line - 2) line)) (token password))
        invalid_password
    decode_request
