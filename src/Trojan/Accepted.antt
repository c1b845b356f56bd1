-- ===== src/Trojan/Accepted.antt =====
-- Which requests `decode_trojan` accepts, and what it makes of them.
use ruproxy.Trojan.Line.{read_line-append, read_line_inv, ends_with_inv}
use ruproxy.Text.Lossy.{from_utf8_lossy}
use ruproxy.Text.Lossy.Laws.{IsAscii, from_utf8_lossy-IsAscii, from_utf8_lossy-inj}
use ruproxy.Prelude.{
  ℕ, ◌-◌, ◌/◌, ◌%◌, ◌≤◌, ◌<◌, ◌≡◌, ◌≢◌, refl, sym, ap, ap₂, ◌∙◌, [], ◌∷◌, ◌++◌, ◌==◌, length, take,
  if◌then◌else◌, arith, All, ◌⊎◌, inl, inr, append_assoc, length-append, Bool-cases,
  take-length_append, ==_iff,
}
use ruproxy.Bytes.{Bytes, bytes_eq, bytes_eq_iff, bytes_eq_refl, u16_bytes, IsU16, be16}
use ruproxy.Io.{
  ok, err, invalid_password, guard, read_u8, read_u16, read_exact, from_step, only_tcp_supported,
  guard_inv, read_u8_inv,
}
use ruproxy.Target.{Host, ip4, name, ip6, host_text, host_body, IsHost, target_text}
use ruproxy.Target.Read.{atyp_of, host_reader, host_reader-host_body}
use ruproxy.Trojan.{crlf, read_line, read_host, decode_request, decode_trojan}

-- The digits of `hex::encode`.
abbrev pub IsHexDigit : ℕ → Type 0
IsHexDigit b = ((b'0' ≤ b) × (b ≤ b'9')) ⊎ ((b'a' ≤ b) × (b ≤ b'f'))

-- The text of a SHA-224 digest.
abbrev pub IsDigestText : Bytes → Type 0
IsDigestText t = All IsHexDigit t × (length t ≡ 56)

abbrev pub request_bytes : Host → ℕ → Bytes
request_bytes host port = 1 ∷ atyp_of host ∷ (host_body host ++ (u16_bytes port ++ crlf))

digest_no_line_feed : (t : Bytes) → All IsHexDigit t → All (λ b. b ≢ 10) t
digest_no_line_feed [] h = tt
digest_no_line_feed (b ∷ t) h = (ground arith, digest_no_line_feed t h.1)

digest-IsAscii : (t : Bytes) → All IsHexDigit t → IsAscii t
digest-IsAscii [] h = tt
digest-IsAscii (b ∷ t) h = (ground arith, digest-IsAscii t h.1)

read_host-atyp_of : (host : Host) (s : Bytes) → read_host (atyp_of host) s ≡ host_reader host s
unfolding read_host
read_host-atyp_of (ip4 ip) s = refl
read_host-atyp_of (name d) s = refl
read_host-atyp_of (ip6 ip) s = refl

-- A CONNECT request is decoded to the text of its target, and what follows it is left: the port
-- fits 16 bits, and the host is an address, or a name of 1 to 255 bytes of UTF-8.
pub decode_request-request_bytes :
    (host : Host) (port : ℕ) (rest : Bytes)
    → IsU16 port
    → IsHost host
    → decode_request (request_bytes host port ++ rest)
      ≡ ok (target_text (host_text host) port, rest)
unfolding decode_request read_u8 read_u16 read_exact
decode_request-request_bytes host port rest p h =
    let tail = u16_bytes port ++ (crlf ++ rest) in
    let shape = append_assoc (host_body host) (u16_bytes port ++ crlf) rest in
    let same : be16 (port / 256 % 256) (port % 256) ≡ port = omega arith in
    rw shape (
      rw (read_host-atyp_of host (host_body host ++ tail), host_reader-host_body host tail h)
        (rw same refl))

module _ (token : Bytes → Bytes) where
  -- A line of at most 255 bytes of ASCII without a line feed decides: if it is the digest of the
  -- password, the request behind it is decoded, and if it is anything else, it is refused with
  -- "invalid password" and nothing behind it is looked at.
  pub decode_trojan-line :
      (password line rest : Bytes)
      → All (λ b. b ≢ 10) line
      → IsAscii line
      → length line < 256
      → decode_trojan token password (line ++ (crlf ++ rest))
        ≡ (if bytes_eq line (token password) then decode_request rest else err invalid_password)
  unfolding decode_trojan
  decode_trojan-line password line rest n a l =
      let k = length-append line crlf in
      let m : length (line ++ crlf) - 2 ≡ length line = omega (arith, k) in
      rw (read_line-append [] line rest n (omega arith)) (
        rw (m, take-length_append line crlf, from_utf8_lossy-IsAscii line a)
          (elim (Bool-cases (bytes_eq line (token password))) [
            | inl e ↦ rw e refl
            | inr e ↦ rw e refl
          ]))

  -- A request with the digest of the password is decoded to the text of its target, and the
  -- payload behind it is left; the digest is 56 hexadecimal digits, the port fits 16 bits, and the
  -- host is an address, or a name of 1 to 255 bytes of UTF-8.
  pub decode_trojan-request_bytes :
      (password : Bytes) (host : Host) (port : ℕ) (payload : Bytes)
      → IsDigestText (token password)
      → IsU16 port
      → IsHost host
      → decode_trojan token password
          (token password ++ (crlf ++ (request_bytes host port ++ payload)))
        ≡ ok (target_text (host_text host) port, payload)
  decode_trojan-request_bytes password host port payload d p h =
      decode_trojan-line password (token password) (request_bytes host port ++ payload)
        (digest_no_line_feed _ d.0) (digest-IsAscii _ d.0) (omega (arith, d.1))
      ∙ rw (bytes_eq_refl (token password)) (decode_request-request_bytes host port payload p h)

  -- A request is decoded only if it starts with the digest of the password, CRLF and the command
  -- 1, where the digest is 56 hexadecimal digits.
  pub decode_trojan-token :
      (password s : Bytes) {target rest : Bytes}
      → IsDigestText (token password)
      → decode_trojan token password s ≡ ok (target, rest)
      → (tail : Bytes) × (s ≡ token password ++ (crlf ++ (1 ∷ tail)))
  unfolding decode_trojan decode_request
  decode_trojan-token password s d h = from_step (read_line [] s) h λ line s1 read1 h1.
      let text = take (length line - 2) line in
      from_step (guard (bytes_eq (from_utf8_lossy text) (token password)) invalid_password s1) h1
        λ u s2 g2 h2. from_step (read_u8 s2) h2 λ cmd s3 read3 h3.
          from_step (guard (cmd == 1) only_tcp_supported s3) h3 λ u4 s4 g4 h4.
            let (is_token, same2) =
              guard_inv (bytes_eq (from_utf8_lossy text) (token password)) invalid_password s1 g2 in
            let (is_connect, same4) = guard_inv (cmd == 1) only_tcp_supported s3 g4 in
            let (split, end, bound) = read_line_inv [] s (omega arith) read1 in
            let e = (bytes_eq_iff (from_utf8_lossy text) (token password)).0 is_token in
            let t = from_utf8_lossy-inj text (token password) (digest-IsAscii _ d.0) e in
            let whole = ends_with_inv line crlf end in
            let c = (==_iff cmd 1).0 is_connect in
            (
              s3,
              split
                  ∙ ap₂ (λ x y. x ++ y) (sym whole ∙ ap (λ x. x ++ crlf) t)
                      (same2 ∙ read_u8_inv s2 read3 ∙ ap (λ x. x ∷ s3) c)
                  ∙ append_assoc (token password) crlf (1 ∷ s3),
            )
