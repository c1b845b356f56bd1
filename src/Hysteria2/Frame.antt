-- ===== src/Hysteria2/Frame.antt =====
-- The UDP frames of src/hysteria2/proxy.rs: parsing of what a client sends, and building of the
-- replies, in fragments where they are larger than a datagram.
pub mod Parsed
pub mod Chunks
use ruproxy.Prelude.{
  ℕ, zero, suc, ◌+◌, ◌%◌, ◌≤◌, Bool, true, false, ◌&&◌, ◌||◌, not, List, [], ◌∷◌, ◌++◌, ◌==◌, leb,
  ltb, length, take, drop, if◌then◌else◌, Option, none, some, get_or, ◌^◌,
}
use ruproxy.Bytes.{Bytes, be16, be32, u16_bytes, u32_bytes}
use ruproxy.Io.{
  Result, ok, err, and_then, Reader, ◌>>=◌, ◌>>◌, done, bail, lift, guard, read_exact, read_u8,
  addr_truncated, invalid_addr, frame_too_short, invalid_addr_len,
}
use ruproxy.Text.{
  from_utf8, rsplit_once, trim_matches, parse_unsigned, SocketAddr, socket_addr_text,
}
use ruproxy.Hysteria2.Varint.{read_varint_bytes, write_varint}

pub record UdpFrame : Type 0 where
  pub session_id : ℕ
  pub packet_id : ℕ
  pub frag_id : ℕ
  pub frag_total : ℕ
  pub addr : Bytes
  pub port : ℕ
  pub payload : Bytes

abbrev pub is_bracket : ℕ → Bool
is_bracket c = c == b'[' || c == b']'

-- The text before the last colon, without brackets, and the port behind it.
unfoldable pub split_host_port : Bytes → Result (Bytes × ℕ)
split_host_port s = elim (rsplit_once b':' s) [
  | none ↦ err invalid_addr
  | some (host, port_str) ↦
      and_then (parse_unsigned (2 ^ 16) port_str) λ port. ok (trim_matches is_bracket host, port)
]

-- `get_u32`, `get_u16` and `get_u8`: the caller has checked that the bytes are there.
unfoldable pub read_fixed : Reader (ℕ × ℕ × ℕ × ℕ)
read_fixed = do
  b ← read_exact 8
  done (
    be32 (get_or b 0 0) (get_or b 1 0) (get_or b 2 0) (get_or b 3 0),
    be16 (get_or b 4 0) (get_or b 5 0),
    get_or b 6 0,
    get_or b 7 0,
  )

-- `split_to(n)`, behind the check that `n` bytes are there.
unfoldable pub split_to : ℕ → Reader Bytes
split_to n s = if ltb (length s) n then err addr_truncated else ok (take n s, drop n s)

-- `parse_udp_frame`; the bytes behind the address are the payload.
unfoldable pub read_frame : Reader UdpFrame
read_frame = do
  fixed ← read_fixed
  addr_len ← read_varint_bytes
  guard (ltb 0 addr_len && leb addr_len 2048) invalid_addr_len
  addr_bytes ← split_to addr_len
  addr_str ← lift (from_utf8 addr_bytes)
  host ← lift (split_host_port addr_str)
  λ payload. ok (
    record {
      session_id = fixed.0;
      packet_id = fixed.1;
      frag_id = fixed.2;
      frag_total = fixed.3;
      addr = host.0;
      port = host.1;
      payload = payload;
    },
    [],
  )

unfoldable pub parse_udp_frame : Bytes → Result UdpFrame
parse_udp_frame data' =
    if ltb (length data') 8 then err frame_too_short else and_then (read_frame data') (λ r. ok r.0)

unfoldable pub build_single_udp_frame : ℕ → ℕ → ℕ → ℕ → Bytes → Bytes → Bytes
build_single_udp_frame session_id packet_id frag_id frag_total addr_str payload =
    u32_bytes session_id
    ++ (u16_bytes packet_id
        ++ (frag_id ∷ frag_total ∷ (write_varint (length addr_str) ++ (addr_str ++ payload))))

abbrev pub datagram_max_payload : ℕ
datagram_max_payload = 1100

-- `slice::chunks(n)` of a payload of at most `fuel` bytes.
unfoldable pub chunks : ℕ → ℕ → Bytes → List Bytes
chunks zero n s = []
chunks (suc fuel) n [] = []
chunks (suc fuel) n (b ∷ s) = take n (b ∷ s) ∷ chunks fuel n (drop n (b ∷ s))

-- The frames of the chunks from index `i` on: `i as u8`.
unfoldable pub number_frames : ℕ → ℕ → ℕ → Bytes → ℕ → List Bytes → List Bytes
number_frames session_id packet_id frag_total addr_str i [] = []
number_frames session_id packet_id frag_total addr_str i (c ∷ cs) =
    build_single_udp_frame session_id packet_id (i % 256) frag_total addr_str c
    ∷ number_frames session_id packet_id frag_total addr_str (i + 1) cs

unfoldable pub build_udp_frames : ℕ → ℕ → SocketAddr → Bytes → List Bytes
build_udp_frames session_id packet_id src_addr payload =
    let addr_str = socket_addr_text src_addr in
    if leb (length payload) datagram_max_payload
    then build_single_udp_frame session_id packet_id 0 1 addr_str payload ∷ []
    else let parts = chunks (length payload) datagram_max_payload payload in
      number_frames session_id packet_id (length parts % 256) addr_str 0 parts
