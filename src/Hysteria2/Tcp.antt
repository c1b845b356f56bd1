-- ===== src/Hysteria2/Tcp.antt =====
-- TCP streams of src/hysteria2: `read_tcp_request` and `write_tcp_response` of auth.rs, and the frame
-- type that `handle_tcp_bidi` of server.rs reads first.
pub mod Request
use ruproxy.Bytes.{Bytes}
use ruproxy.Prelude.{
  ℕ, zero, suc, ◌+◌, ◌-◌, ◌*◌, ◌/◌, ◌%◌, ◌^◌, ◌≤◌, ◌<◌, ◌≡◌, ◌≢◌, refl, sym, ap, ap₂, ◌∙◌, subst,
  Bool, true, false, not, ◌&&◌, ◌||◌, Option, none, some, List, [], ◌∷◌, ◌++◌, ◌==◌, ltb, leb,
  length, take, drop, get_or, if◌then◌else◌, arith, All, ◌⊎◌, inl, inr, min, max, bit_and, bit_or,
  bit_xor, ◌↔◌, append_assoc, append-nil, length-append, Bool-cases,
}
use ruproxy.Hysteria2.Varint.{read_varint, write_varint}
use ruproxy.Text.{from_utf8}
use ruproxy.Io.{◌>>=◌, ◌>>◌, Reader, ok, guard, invalid_addr_len, read_exact, lift, done}

-- The padding is discarded if it has at most 4096 bytes; an error of that read is ignored, and a
-- stream that ends within the padding is used up.
unfoldable pub skip_padding : ℕ → Reader (Unit {0})
skip_padding pad_len s =
    if ltb 0 pad_len && leb pad_len 4096 then ok (tt, drop pad_len s) else ok (tt, s)

unfoldable pub read_tcp_request : Reader Bytes
read_tcp_request = do
  addr_len ← read_varint
  guard (ltb 0 addr_len && leb addr_len 2048) invalid_addr_len
  addr_buf ← read_exact addr_len
  addr ← lift (from_utf8 addr_buf)
  pad_len ← read_varint
  skip_padding pad_len
  done addr

-- The padding is random text.
unfoldable pub write_tcp_response : Bool → Bytes → Bytes → Bytes
write_tcp_response accepted message padding =
    (if accepted then 0x00 else 0x01)
    ∷ (write_varint (length message) ++ (message ++ (write_varint (length padding) ++ padding)))

abbrev pub frame_type_tcp : ℕ
frame_type_tcp = 0x401

abbrev pub read_target : Reader (Option Bytes)
read_target = do target ← read_tcp_request; done (some target)

-- `handle_tcp_bidi`: the target of a TCP stream; any other frame type is ignored.
unfoldable pub handle_tcp_bidi : Reader (Option Bytes)
handle_tcp_bidi = do
  frame_type ← read_varint
  (if frame_type == frame_type_tcp then read_target else done none)
