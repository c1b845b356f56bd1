-- ===== src/Vless/Protocol.antt =====
-- src/vless/protocol.rs: the request header.
pub mod Decode
use ruproxy.Bytes.{Bytes, bytes_eq}
use ruproxy.Io.{
  Reader, read_exact, done, read_u8, guard, unsupported_version, empty_domain, unsupported_command,
  lift, read_u16, invalid_uuid, bail, unknown_address_type,
}
use ruproxy.Prelude.{
  ℕ, zero, suc, ◌+◌, ◌-◌, ◌*◌, ◌/◌, ◌%◌, ◌^◌, ◌≤◌, ◌<◌, ◌≡◌, ◌≢◌, refl, sym, ap, ap₂, ◌∙◌, subst,
  Bool, true, false, not, ◌&&◌, ◌||◌, Option, none, some, List, [], ◌∷◌, ◌++◌, ◌==◌, ltb, leb,
  length, take, drop, get_or, if◌then◌else◌, arith, All, ◌⊎◌, inl, inr, min, max, bit_and, bit_or,
  bit_xor, ◌↔◌, append_assoc, append-nil, length-append, Bool-cases,
}
use ruproxy.Io.{◌>>=◌, ◌>>◌}
use ruproxy.Target.{ipv4_of, ipv6_of, target_text}
use ruproxy.Text.{ipv4_text, ipv6_text, from_utf8}

abbrev pub vless_version : ℕ
vless_version = 0x00

abbrev pub cmd_tcp : ℕ
cmd_tcp = 0x01

abbrev pub cmd_udp : ℕ
cmd_udp = 0x02

pub record VlessRequest : Type 0 where
  pub command : ℕ
  pub target : Bytes

-- `read_address`, the match on the type.
unfoldable pub read_host : ℕ → Reader Bytes
read_host atyp =
    if atyp == 0x01
    then (do buf ← read_exact 4; done (ipv4_text (ipv4_of buf)))
    else if atyp == 0x02
    then (do
      domain_len ← read_u8
      guard (not (domain_len == 0)) empty_domain
      domain_buf ← read_exact domain_len
      lift (from_utf8 domain_buf))
    else if atyp == 0x03
    then (do buf ← read_exact 16; done (b'[' ∷ (ipv6_text (ipv6_of buf) ++ (b']' ∷ []))))
    else bail unknown_address_type

unfoldable pub read_address : Reader Bytes
read_address = do atyp ← read_u8; read_host atyp

-- The addons are skipped.
unfoldable pub skip_addons : ℕ → Reader Bytes
skip_addons addon_len = if ltb 0 addon_len then read_exact addon_len else done []

-- `decode_request`, behind the UUID.
unfoldable pub decode_command : Reader VlessRequest
decode_command = do
  addon_len ← read_u8
  discard ← skip_addons addon_len
  command ← read_u8
  guard (command == cmd_tcp || command == cmd_udp) unsupported_command
  port ← read_u16
  addr ← read_address
  done (record { command = command; target = target_text addr port })

unfoldable pub decode_request : Bytes → Reader VlessRequest
decode_request expected_uuid = do
  version ← read_u8
  guard (version == vless_version) unsupported_version
  uuid_buf ← read_exact 16
  guard (bytes_eq uuid_buf expected_uuid) invalid_uuid
  decode_command

-- `encode_response`
abbrev pub encode_response : Bytes
encode_response = vless_version ∷ 0x00 ∷ []
