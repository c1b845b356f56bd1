-- ===== src/Tests/Vless.antt =====
-- The theorems on src/vless, at concrete inputs.
use ruproxy.Bytes.{Bytes}
use ruproxy.Prelude.{◌≡◌, refl, [], ◌∷◌, ◌++◌, arith, inr, replicate}
use ruproxy.Vless.Protocol.{decode_request}
use ruproxy.Vless.Protocol.Decode.{decode_request-request_bytes, request_bytes}
use ruproxy.Target.{Host, name, target_text}
use ruproxy.Text.{is_utf8}
use ruproxy.Io.{ok}

abbrev uuid : Bytes
uuid = replicate 16 3

abbrev site : Host
site = name (b'a' ∷ b'.' ∷ b'b' ∷ [])

decode_request-request_bytes_example :
    decode_request uuid (request_bytes uuid (1 ∷ 2 ∷ []) 2 site 443 ++ (9 ∷ []))
    ≡ ok (record { command = 2; target = target_text (b'a' ∷ b'.' ∷ b'b' ∷ []) 443 }, 9 ∷ [])
unfolding is_utf8
decode_request-request_bytes_example =
    decode_request-request_bytes uuid (1 ∷ 2 ∷ []) 2 443 site (9 ∷ []) refl (omega arith) (inr refl)
      (omega arith) (refl, omega arith, omega arith)

abbrev request : Bytes
request = 0 ∷ (uuid ++ (0 ∷ 1 ∷ 0 ∷ 80 ∷ 1 ∷ 127 ∷ 0 ∷ 0 ∷ 1 ∷ 9 ∷ []))
