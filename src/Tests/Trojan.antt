-- ===== src/Tests/Trojan.antt =====
-- The theorems on src/trojan, at concrete inputs.
use ruproxy.Bytes.{Bytes}
use ruproxy.Prelude.{◌≡◌, refl, [], ◌∷◌, ◌++◌, arith, replicate}
use ruproxy.Io.{ok}
use ruproxy.Target.{Host, name, target_text}
use ruproxy.Text.{is_utf8}
use ruproxy.Trojan.{crlf, decode_trojan}
use ruproxy.Trojan.Accepted.{
  request_bytes, decode_trojan-request_bytes, decode_trojan-token, IsDigestText,
}

-- A stand-in for the digest.
abbrev token : Bytes → Bytes
token password = replicate 56 b'a'

token-IsDigestText : IsDigestText (token [])
token-IsDigestText = ground arith

abbrev site : Host
site = name (b'a' ∷ b'.' ∷ b'b' ∷ [])

decode_trojan-request_bytes_example :
    decode_trojan token [] (token [] ++ (crlf ++ (request_bytes site 443 ++ (9 ∷ []))))
    ≡ ok (target_text (b'a' ∷ b'.' ∷ b'b' ∷ []) 443, 9 ∷ [])
unfolding is_utf8
decode_trojan-request_bytes_example =
    decode_trojan-request_bytes token [] site 443 (9 ∷ []) token-IsDigestText (omega arith)
      (refl, omega arith, omega arith)

decode_trojan-token_example :
    (tail : Bytes) × (token [] ++ (crlf ++ (request_bytes site 443 ++ (9 ∷ [])))
      ≡ token [] ++ (crlf ++ (1 ∷ tail)))
decode_trojan-token_example =
    decode_trojan-token token [] (token [] ++ (crlf ++ (request_bytes site 443 ++ (9 ∷ []))))
      token-IsDigestText decode_trojan-request_bytes_example
