-- ===== src/Vless/Protocol/Decode.antt =====
-- `decode_request` of src/vless/protocol.rs against the request on the wire.
use ruproxy.Bytes.{Bytes, u16_bytes, IsU16, bytes_eq, bytes_eq_iff, bytes_eq_refl, be16}
use ruproxy.Prelude.{
  ℕ, ◌/◌, ◌%◌, ◌<◌, ◌≡◌, refl, sym, ap, ap₂, ◌∙◌, true, ◌||◌, [], ◌∷◌, ◌++◌, ◌==◌, length, arith,
  ◌⊎◌, append_assoc, lt→ltb, ne→==, ==_iff,
}
use ruproxy.Vless.Protocol.{
  VlessRequest, decode_request, decode_command, read_address, read_host, skip_addons, vless_version,
  cmd_tcp, cmd_udp,
}
use ruproxy.Target.{
  Host, ip4, name, ip6, host_text, host_body, IsHost, target_text, octets6, ipv6_of-octets6,
}
use ruproxy.Text.Laws.{from_utf8_ok}
use ruproxy.Io.{
  read_u8, ok, read_exact, from_step, guard, read_exact-append, unsupported_version, invalid_uuid,
  guard_inv, read_exact_inv, read_u8_inv, read_u16,
}

abbrev pub host_type : Host → ℕ
host_type (ip4 ip) = 0x01
host_type (name d) = 0x02
host_type (ip6 ip) = 0x03

-- A request as Xray writes it: version, UUID, addons, command, port, type and host.
abbrev pub request_bytes : Bytes → Bytes → ℕ → Host → ℕ → Bytes
request_bytes uuid addons command host port =
    vless_version
    ∷ (uuid
        ++ (length addons
            ∷ (addons ++ (command ∷ (u16_bytes port ++ (host_type host ∷ host_body host))))))

read_host-host_body :
    (host : Host) (rest : Bytes)
    → IsHost host
    → read_host (host_type host) (host_body host ++ rest) ≡ ok (host_text host, rest)
unfolding read_host read_u8
read_host-host_body (ip4 ip) rest h = unfold read_exact in refl
read_host-host_body (name d) rest h =
    rw (ne→== (length d) 0 (omega (arith, h.1)))
      (rw (read_exact-append (length d) d rest refl) (rw (from_utf8_ok d h.0) refl))
read_host-host_body (ip6 ip) rest h =
    rw (read_exact-append 16 (octets6 ip) rest refl) (rw (ipv6_of-octets6 ip h) refl)

skip_addons-append :
    (addons rest : Bytes) → skip_addons (length addons) (addons ++ rest) ≡ ok (addons, rest)
unfolding skip_addons
skip_addons-append [] rest = refl
skip_addons-append (a ∷ addons) rest =
    rw (lt→ltb 0 (length (a ∷ addons)) (omega arith))
      (read_exact-append (length (a ∷ addons)) (a ∷ addons) rest refl)

-- The part of a request from the command on, and what follows it.
abbrev command_bytes : ℕ → Host → ℕ → Bytes → Bytes
command_bytes command host port payload =
    command ∷ (u16_bytes port ++ (host_type host ∷ (host_body host ++ payload)))

decode_command-bytes :
    (addons : Bytes) (command port : ℕ) (host : Host) (payload : Bytes)
    → (command ≡ cmd_tcp) ⊎ (command ≡ cmd_udp)
    → IsU16 port
    → IsHost host
    → decode_command (length addons ∷ (addons ++ command_bytes command host port payload))
      ≡ ok (record { command = command; target = target_text (host_text host) port }, payload)
unfolding decode_command read_u8 read_u16 read_exact read_address
decode_command-bytes addons command port host payload c p h =
    let known : (command == cmd_tcp || command == cmd_udp) ≡ true = ground arith in
    let same : be16 (port / 256 % 256) (port % 256) ≡ port = omega arith in
    rw (skip_addons-append addons (command_bytes command host port payload))
      (rw (known) (rw (same, read_host-host_body host payload h) refl))

-- A TCP or UDP request for the configured UUID, with any addons of at most 255 bytes, is decoded
-- to its command and the text of its target, and the payload behind it is left; the port fits 16
-- bits, and the host is an address, or a name of 1 to 255 bytes of UTF-8.
pub decode_request-request_bytes :
    (uuid addons : Bytes) (command port : ℕ) (host : Host) (payload : Bytes)
    → length uuid ≡ 16
    → length addons < 256
    → (command ≡ cmd_tcp) ⊎ (command ≡ cmd_udp)
    → IsU16 port
    → IsHost host
    → decode_request uuid (request_bytes uuid addons command host port ++ payload)
      ≡ ok (record { command = command; target = target_text (host_text host) port }, payload)
unfolding decode_request read_u8
decode_request-request_bytes uuid addons command port host payload u a c p h =
    let body = command_bytes command host port payload in
    let tail = command ∷ (u16_bytes port ++ (host_type host ∷ host_body host)) in
    let shape : (uuid ++ (length addons ∷ (addons ++ tail))) ++ payload
        ≡ uuid ++ (length addons ∷ (addons ++ body)) =
      append_assoc uuid (length addons ∷ (addons ++ tail)) payload
      ∙ ap (λ x. uuid ++ (length addons ∷ x)) (append_assoc addons tail payload) in
    rw shape (
      rw (read_exact-append 16 uuid (length addons ∷ (addons ++ body)) u)
        (rw (bytes_eq_refl uuid) (decode_command-bytes addons command port host payload c p h)))

-- A request is decoded only if it starts with version 0 and the configured UUID.
pub decode_request-uuid :
    (uuid s : Bytes) {r : VlessRequest} {rest : Bytes}
    → decode_request uuid s ≡ ok (r, rest)
    → (tail : Bytes) × (s ≡ vless_version ∷ (uuid ++ tail)) × (length uuid ≡ 16)
unfolding decode_request
decode_request-uuid uuid s h = from_step (read_u8 s) h λ version s1 read1 h1.
    from_step (guard (version == vless_version) unsupported_version s1) h1 λ u s2 g2 h2.
      from_step (read_exact 16 s2) h2 λ uuid_buf s3 read3 h3.
        from_step (guard (bytes_eq uuid_buf uuid) invalid_uuid s3) h3 λ u4 s4 g4 h4.
          let (is_version, same2) =
            guard_inv (version == vless_version) unsupported_version s1 g2 in
          let (is_uuid, same4) = guard_inv (bytes_eq uuid_buf uuid) invalid_uuid s3 g4 in
          let (split, len) = read_exact_inv 16 s2 read3 in
          let v = (==_iff version vless_version).0 is_version in
          let e = (bytes_eq_iff uuid_buf uuid).0 is_uuid in
          (
            s3,
            read_u8_inv s read1 ∙ ap₂ ◌∷◌ v (same2 ∙ split ∙ ap (λ x. x ++ s3) e),
            sym (ap length e) ∙ len,
          )
