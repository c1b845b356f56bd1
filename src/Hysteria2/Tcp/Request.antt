-- ===== src/Hysteria2/Tcp/Request.antt =====
-- A TCP request of a client, as `handle_tcp_bidi` of src/hysteria2/server.rs reads it.
use ruproxy.Bytes.{Bytes}
use ruproxy.Prelude.{
  ◌^◌, ◌≤◌, ◌<◌, ◌≡◌, refl, true, some, [], ◌∷◌, ◌++◌, leb, length, if◌then◌else◌, arith, lt→ltb,
  le→leb, drop-length_append,
}
use ruproxy.Hysteria2.Tcp.{skip_padding, read_tcp_request, handle_tcp_bidi, frame_type_tcp}
use ruproxy.Hysteria2.Varint.{write_varint}
use ruproxy.Hysteria2.Varint.RoundTrip.{read_varint-write_varint}
use ruproxy.Text.{is_utf8}
use ruproxy.Text.Laws.{from_utf8_ok}
use ruproxy.Io.{read_exact-append, ok}

-- Frame type, address and padding, and what follows them.
abbrev pub tcp_stream : Bytes → Bytes → Bytes → Bytes
tcp_stream addr padding rest =
    write_varint frame_type_tcp
    ++ (write_varint (length addr)
        ++ (addr ++ (write_varint (length padding) ++ (padding ++ rest))))

skip_padding-append :
    (padding rest : Bytes)
    → skip_padding (length padding) (padding ++ rest)
      ≡ ok (tt, if leb (length padding) 4096 then rest else padding ++ rest)
unfolding skip_padding
skip_padding-append [] rest = refl
skip_padding-append (p ∷ padding) rest =
    rw (lt→ltb 0 (length (p ∷ padding)) (omega arith))
      (ground (arith, drop-length_append (p ∷ padding) rest))

-- Of a TCP stream with an address of 1 to 2048 bytes of UTF-8 and with padding below 2^62 bytes,
-- `handle_tcp_bidi` reads the address; padding of at most 4096 bytes is skipped, and longer
-- padding is left in the stream, in front of the data.
pub handle_tcp_bidi-tcp_stream :
    (addr padding rest : Bytes)
    → is_utf8 addr ≡ true
    → 0 < length addr
    → length addr ≤ 2048
    → length padding < 2 ^ 62
    → handle_tcp_bidi (tcp_stream addr padding rest)
      ≡ ok (some addr, if leb (length padding) 4096 then rest else padding ++ rest)
unfolding handle_tcp_bidi read_tcp_request
handle_tcp_bidi-tcp_stream addr padding rest u pos small big =
    let tail2 = write_varint (length padding) ++ (padding ++ rest) in
    let tail1 = write_varint (length addr) ++ (addr ++ tail2) in
    rw (read_varint-write_varint frame_type_tcp tail1 (omega arith)) (
      rw (read_varint-write_varint (length addr) (addr ++ tail2) (omega arith)) (
        rw (lt→ltb 0 (length addr) pos, le→leb (length addr) 2048 small)
          (rw (read_exact-append (length addr) addr tail2 refl) (
            rw (from_utf8_ok addr u) (
              rw (read_varint-write_varint (length padding) (padding ++ rest) big)
                (rw (skip_padding-append padding rest) refl))))))
