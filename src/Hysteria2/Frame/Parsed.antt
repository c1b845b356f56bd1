-- ===== src/Hysteria2/Frame/Parsed.antt =====
-- `parse_udp_frame` reads back what `build_single_udp_frame` writes.
use ruproxy.Hysteria2.Varint.Datagram.{read_varint_bytes-write_varint}
use ruproxy.Hysteria2.Varint.{write_varint}
use ruproxy.Prelude.{
  ℕ, ◌^◌, ◌≤◌, ◌<◌, ◌≡◌, true, ◌∷◌, ◌++◌, length, arith, length-append, le→ltb, take-length_append,
  drop-length_append, lt→ltb, le→leb,
}
use ruproxy.Text.Laws.{rsplit_once-append, decimal-IsDigit, parse_unsigned-decimal, from_utf8_ok}
use ruproxy.Text.{is_utf8, trim_matches, decimal}
use ruproxy.Io.{read_exact, ok}
use ruproxy.Bytes.{Bytes, IsU16, IsU32, u32_bytes, u16_bytes}
use ruproxy.Hysteria2.Frame.{
  parse_udp_frame, build_single_udp_frame, read_frame, read_fixed, split_to, split_host_port, ℕ,
  length, ◌++◌, true, is_bracket,
}

-- A host, a colon and a printed port; an IPv6 host stands in brackets.
abbrev pub host_port : Bytes → ℕ → Bytes
host_port host port = host ++ (b':' ∷ decimal port)

split_host_port-host_port :
    (host : Bytes) (port : ℕ)
    → IsU16 port
    → split_host_port (host_port host port) ≡ ok (trim_matches is_bracket host, port)
unfolding split_host_port
split_host_port-host_port host port h =
    rw
      (rsplit_once-append host (decimal port) (decimal-IsDigit port (omega arith)), split_host_port)
      (rw (parse_unsigned-decimal (2 ^ 16) port h (omega arith)))

split_to-append : (xs rest : Bytes) → split_to (length xs) (xs ++ rest) ≡ ok (xs, rest)
unfolding split_to
split_to-append xs rest =
    rw (le→ltb (length (xs ++ rest)) (length xs) (omega (arith, length-append xs rest)))
      (rw (take-length_append, drop-length_append))

read_fixed-bytes :
    (sid pid fid total : ℕ) (rest : Bytes)
    → IsU32 sid
    → IsU16 pid
    → read_fixed (u32_bytes sid ++ (u16_bytes pid ++ (fid ∷ total ∷ rest)))
      ≡ ok ((sid, pid, fid, total), rest)
unfolding read_fixed read_exact
read_fixed-bytes sid pid fid total rest h k = ground (arith)

-- A frame that the server builds is parsed back, field by field, with the brackets of the host
-- gone, if its fields fit and its address is UTF-8 of at most 2048 bytes.
pub parse_udp_frame-build_single_udp_frame :
    (sid pid fid total port : ℕ) (host payload : Bytes)
    → IsU32 sid
    → IsU16 pid
    → IsU16 port
    → is_utf8 (host_port host port) ≡ true
    → length (host_port host port) ≤ 2048
    → parse_udp_frame (build_single_udp_frame sid pid fid total (host_port host port) payload)
      ≡ ok (record {
        session_id = sid;
        packet_id = pid;
        frag_id = fid;
        frag_total = total;
        addr = trim_matches is_bracket host;
        port = port;
        payload = payload;
      })
unfolding parse_udp_frame build_single_udp_frame read_frame
parse_udp_frame-build_single_udp_frame sid pid fid total port host payload hs hp hport u len =
    let addr_str = host_port host port in
    let size : 0 < length addr_str = omega (arith, length-append host (b':' ∷ decimal port)) in
    let body = write_varint (length addr_str) ++ (addr_str ++ payload) in
    rw (read_fixed-bytes sid pid fid total body hs hp) (
      rw (read_varint_bytes-write_varint (length addr_str) (addr_str ++ payload) (omega arith)) (
        rw (lt→ltb 0 (length addr_str) size, le→leb (length addr_str) 2048 len)
          (rw (split_to-append addr_str payload) (
            rw (from_utf8_ok addr_str u)
              (rw (split_host_port-host_port host port hport) (ground arith))))))
