-- ===== src/Tuic/Proto/Datagram.antt =====
-- Commands in a datagram: what `build_packet_header` writes is read back, and the bytes behind the
-- header of a packet are its payload.
use ruproxy.Bytes.Elems.{Filled, filled, elems, u16_bytes-elems}
use ruproxy.Prelude.{
  ℕ, ◌≡◌, ap, ap₂, sym, ◌∙◌, false, [], ◌∷◌, ◌++◌, arith, Bool-cases, get_or, ◌==◌, inr, inl,
  ==_iff,
}
use ruproxy.Bytes.{Bytes, IsU16, AllBytes, u16_bytes, be16}
use ruproxy.Io.{ok, read_exact, from_step, read_exact_inv, ok_inj}
use ruproxy.Tuic.Proto.{
  Address, PacketInfo, Command, packet, read_from, to_bytes, read_packet, read_datagram_body,
  read_from_sync, build_packet_header, version, cmd_packet, read_authenticate, read_dissociate,
  cmd_authenticate, cmd_heartbeat, cmd_dissociate,
}
use ruproxy.Tuic.Proto.AddressCodec.{IsAddress, read_from-to_bytes}
use ruproxy.Tuic.Proto.Consumed.{read_from-consumes}

-- The header of one packet on the wire.
abbrev pub packet_header : PacketInfo → Bytes
packet_header info =
    version
    ∷ cmd_packet
    ∷ (u16_bytes info.assoc_id
        ++ (u16_bytes info.pkt_id
            ++ (info.frag_total ∷ info.frag_id ∷ (u16_bytes info.size ++ to_bytes info.addr))))

-- A packet header from `build_packet_header` is parsed back, whatever payload follows it, if the
-- ids and the length fit 16 bits and the address can be encoded.
pub read_from_sync-build_packet_header :
    (assoc_id pkt_id payload_len : ℕ) (addr : Address) (payload : Bytes)
    → IsU16 assoc_id
    → IsU16 pkt_id
    → IsU16 payload_len
    → IsAddress addr
    → read_from_sync (build_packet_header assoc_id pkt_id addr payload_len ++ payload)
      ≡ ok (
        packet (record {
          assoc_id = assoc_id;
          pkt_id = pkt_id;
          frag_total = 1;
          frag_id = 0;
          size = payload_len;
          addr = addr;
        }),
        payload,
      )
unfolding read_from_sync read_datagram_body read_packet read_exact build_packet_header
read_from_sync-build_packet_header assoc_id pkt_id payload_len addr payload ha hp hl ok_addr =
    rw (read_from-to_bytes addr payload ok_addr) (ground arith)

abbrev info_of : Bytes → Address → PacketInfo
info_of xs addr = record {
  assoc_id = be16 (get_or xs 0 0) (get_or xs 1 0);
  pkt_id = be16 (get_or xs 2 0) (get_or xs 3 0);
  frag_total = get_or xs 4 0;
  frag_id = get_or xs 5 0;
  size = be16 (get_or xs 6 0) (get_or xs 7 0);
  addr = addr;
}

header-info_of :
    {s xs rest : Bytes} (addr : Address)
    → Filled 8 s xs rest
    → elems 0 8 xs ++ to_bytes addr
      ≡ u16_bytes (info_of xs addr).assoc_id
        ++ (u16_bytes (info_of xs addr).pkt_id
            ++ (get_or xs 4 0
                ∷ get_or xs 5 0
                ∷ (u16_bytes (info_of xs addr).size ++ to_bytes addr)))
header-info_of {xs = xs} addr f = ap₂ ◌++◌ (sym (u16_bytes-elems f 0 1)) (
    ap₂ ◌++◌ (sym (u16_bytes-elems f 2 3)) (
      ap (λ t. get_or xs 4 0 ∷ get_or xs 5 0 ∷ (t ++ to_bytes addr)) (sym (u16_bytes-elems f 6 7))))

read_packet_inv :
    (s : Bytes) {c : Command} {rest : Bytes}
    → AllBytes s
    → read_packet s ≡ ok (c, rest)
    → (info : PacketInfo) × (c ≡ packet info)
      × (version ∷ cmd_packet ∷ s ≡ packet_header info ++ rest)
unfolding read_packet
read_packet_inv s {c} {rest} bs h = from_step (read_exact 8 s) h λ xs s1 read h1.
    from_step (read_from s1) h1 λ addr s2 read_addr h2.
      let (split, size) = read_exact_inv 8 s read in
      let f = filled 8 bs split size in
      let (is_packet, same) = ok_inj h2 in
      let bytes : s ≡ (elems 0 8 xs ++ to_bytes addr) ++ rest =
        f.is_prefix
        ∙ ap (λ t. elems 0 8 xs ++ t)
            (read_from-consumes s1 f.rest_bytes read_addr ∙ ap (λ t. to_bytes addr ++ t) same) in
      (
        info_of xs addr,
        sym is_packet,
        ap (λ t. version ∷ cmd_packet ∷ t) (bytes ∙ ap (λ t. t ++ rest) (header-info_of addr f)),
      )

packet_inj : {i j : PacketInfo} → packet i ≡ packet j → i ≡ j
packet_inj h = cc

-- No other command parses to a packet.
other_command :
    (c : ℕ) (s : Bytes) {info : PacketInfo} {rest : Bytes}
    → (c == cmd_packet) ≡ false
    → ¬ (read_datagram_body c s ≡ ok (packet info, rest))
unfolding read_datagram_body read_authenticate read_dissociate
other_command c s other h = elim (Bool-cases (c == cmd_authenticate)) [
  | inl auth ↦ from_step (read_exact 48 s) (rw auth at h) λ xs s1 read h1. cc
  | inr not_auth ↦ elim (Bool-cases (c == cmd_heartbeat)) [
    | inl beat ↦ cc (rw (not_auth, other, beat) at h)
    | inr not_beat ↦ elim (Bool-cases (c == cmd_dissociate)) [
      | inl dis ↦
          from_step (read_exact 2 s) (rw (not_auth, other, not_beat, dis) at h) λ xs s1 read h1. cc
      | inr not_dis ↦ cc (rw (not_auth, other, not_beat, not_dis) at h)
    ]
  ]
]

-- The bytes that `read_from_sync` consumes for a packet are its header, and the rest is left.
pub read_from_sync-consumes :
    (s : Bytes) {info : PacketInfo} {rest : Bytes}
    → AllBytes s
    → read_from_sync s ≡ ok (packet info, rest)
    → s ≡ packet_header info ++ rest
unfolding read_from_sync read_exact read_datagram_body
read_from_sync-consumes [] bs h = cc
read_from_sync-consumes (v ∷ []) bs h = cc
read_from_sync-consumes (v ∷ c ∷ s) {info} {rest} bs h = elim (Bool-cases (v == version)) [
  | inr wrong ↦ cc (rw wrong at h)
  | inl right ↦ elim (Bool-cases (c == cmd_packet)) [
    | inl is_packet ↦
        let v_eq = (==_iff v version).0 right in
        let c_eq = (==_iff c cmd_packet).0 is_packet in
        let (i, same, split) = read_packet_inv s bs.1.1 (rw (right, c_eq) at h) in
        ap₂ (λ x y. x ∷ y ∷ s) v_eq c_eq
        ∙ split
        ∙ ap (λ j. packet_header j ++ rest) (sym (packet_inj same))
    | inr other ↦ absurd (other_command c s other (rw right at h))
  ]
]
