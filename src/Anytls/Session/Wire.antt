-- ===== src/Anytls/Session/Wire.antt =====
-- The frames of src/anytls/session.rs on the wire.
use ruproxy.Io.{ok, read_exact-append}
use ruproxy.Bytes.{Bytes, IsU32, be32, be32-u32_bytes, be16, u32_bytes, u16_bytes}
use ruproxy.Prelude.{◌/◌, ◌%◌, ◌^◌, ◌<◌, ◌≡◌, refl, ◌∷◌, ◌++◌, length, arith}
use ruproxy.Anytls.Session.{Frame, frame_bytes, read_frame}

-- The read loop reads back a frame that the writer task wrote, and leaves what follows it; the
-- stream's id fits 32 bits, and the data is shorter than 2^16 bytes, which is the length on the
-- wire.
pub read_frame-frame_bytes :
    (f : Frame) (rest : Bytes)
    → IsU32 f.sid
    → length f.data' < 2 ^ 16
    → read_frame (frame_bytes f ++ rest) ≡ ok (f, rest)
unfolding read_frame frame_bytes
read_frame-frame_bytes f rest hs hl =
    let l = length f.data' % 2 ^ 16 in
    let sid : be32 (f.sid / 2 ^ 24 % 256) (f.sid / 2 ^ 16 % 256) (f.sid / 256 % 256) (f.sid % 256)
        ≡ f.sid =
      be32-u32_bytes f.sid hs in
    let size : be16 (l / 256 % 256) (l % 256) ≡ length f.data' = omega arith in
    rw (read_exact-append 7 (f.cmd ∷ (u32_bytes f.sid ++ u16_bytes l)) (f.data' ++ rest) refl)
      (rw (size, sid) (rw (read_exact-append (length f.data') f.data' rest refl) refl))
