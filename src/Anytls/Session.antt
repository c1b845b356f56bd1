-- ===== src/Anytls/Session.antt =====
-- src/anytls/session.rs: frames, and what the read loop of `run_server_session` does with each. A
-- channel to a stream's reader is a number; its queue holds everything that was sent to it, an empty
-- entry for the end. The loop's waits for a full channel, of a reader or of the writer, are no steps
-- here: a send is what it does once there is room.
pub mod Wire
pub mod Keeps
pub mod Routing
use ruproxy.Bytes.{Bytes, bytes_eq, u32_bytes, be16, u16_bytes, be32}
use ruproxy.Prelude.{
  ℕ, zero, suc, ◌+◌, ◌-◌, ◌*◌, ◌/◌, ◌%◌, ◌^◌, ◌≤◌, ◌<◌, ◌≡◌, ◌≢◌, refl, sym, ap, ap₂, ◌∙◌, subst,
  Bool, true, false, not, ◌&&◌, ◌||◌, Option, none, some, List, [], ◌∷◌, ◌++◌, ◌==◌, ltb, leb,
  length, take, drop, get_or, if◌then◌else◌, arith, All, ◌⊎◌, inl, inr, min, max, bit_and, bit_or,
  bit_xor, ◌↔◌, append_assoc, append-nil, length-append, Bool-cases,
}
use ruproxy.Text.{lines, trim, split_once, is_utf8, parse_unsigned}
use ruproxy.Map.{Map, lookup, insert, remove, nat_eq, bytes_key}
use ruproxy.Io.{◌>>=◌, ◌>>◌, Result, ok, err, Reader, read_exact, done}

pub record Frame : Type 0 where
  pub cmd : ℕ
  pub sid : ℕ
  pub data' : Bytes

abbrev pub header_size : ℕ
header_size = 7

-- The writer task, for one frame: the length is cast to a u16.
unfoldable pub frame_bytes : Frame → Bytes
frame_bytes f = f.cmd ∷ (u32_bytes f.sid ++ (u16_bytes (length f.data' % 2 ^ 16) ++ f.data'))

-- The header and the data of the next frame.
unfoldable pub read_frame : Reader Frame
read_frame = do
  hdr ← read_exact header_size
  let dlen = be16 (get_or hdr 5 0) (get_or hdr 6 0)
  d ← read_exact dlen
  done (record {
    cmd = get_or hdr 0 0;
    sid = be32 (get_or hdr 1 0) (get_or hdr 2 0) (get_or hdr 3 0) (get_or hdr 4 0);
    data' = d;
  })

-- `gone`: the reader of the channel was dropped.
pub record Channel : Type 0 where
  pub queue : List Bytes
  pub gone : Bool

pub record State : Type 0 where
  pub streams : Map ℕ ℕ
  pub channels : Map ℕ Channel
  pub next : ℕ
  pub peer_version : ℕ
  pub received_settings : Bool
  pub out : List Frame

abbrev pub new : State
new = record {
  streams = [];
  channels = [];
  next = 0;
  peer_version = 1;
  received_settings = false;
  out = [];
}

-- The padding scheme: its bytes and their MD5 in hexadecimal.
pub record Scheme : Type 0 where
  pub raw : Bytes
  pub md5_hex : Bytes

-- One line of `parse_kv`; a later line for the same key wins.
unfoldable pub insert_line : Map Bytes Bytes → Bytes → Map Bytes Bytes
insert_line m line = elim (split_once b'=' line) [
  | none ↦ m
  | some (k, v) ↦ insert (trim k) (trim v) m
]

unfoldable pub insert_lines : Map Bytes Bytes → List Bytes → Map Bytes Bytes
insert_lines m [] = m
insert_lines m (l ∷ ls) = insert_lines (insert_line m l) ls

unfoldable pub parse_kv : Bytes → Map Bytes Bytes
parse_kv d = if is_utf8 d then insert_lines [] (lines d) else []

-- `write_tx.send`
abbrev pub send : ℕ → ℕ → Bytes → State → State
send cmd sid d s = record s { out = s.out ++ (record { cmd = cmd; sid = sid; data' = d } ∷ []) }

-- What the version in the settings makes of the version of the peer.
unfoldable pub version_of : Map Bytes Bytes → ℕ → ℕ
version_of settings old = elim (lookup (b'v' ∷ []) settings) [
  | none ↦ old
  | some v_str ↦ elim (parse_unsigned 256 v_str) [ ok v ↦ v | err e ↦ old ]
]

abbrev pub padding_md5 : Bytes
padding_md5 = b'p' ∷ b'a' ∷ b'd' ∷ b'd' ∷ b'i' ∷ b'n' ∷ b'g' ∷ b'-' ∷ b'm' ∷ b'd' ∷ b'5' ∷ []

abbrev pub md5_of : Map Bytes Bytes → Bytes
md5_of settings = elim (lookup padding_md5 settings) [ none ↦ [] | some v ↦ v ]

abbrev pub when : Bool → (State → State) → State → State
when b f s = if b then f s else s

-- `CMD_SETTINGS`
unfoldable pub handle_settings : Scheme → Bytes → State → State
handle_settings scheme d s =
    let settings = parse_kv d in
    let version = version_of settings s.peer_version in
    let s1 : State = record s { received_settings = true; peer_version = version } in
    let s2 = when (not (bytes_eq (md5_of settings) scheme.md5_hex)) (send 6 0 scheme.raw) s1 in
    when (leb 2 version) (send 10 0 (b'v' ∷ b'=' ∷ b'2' ∷ [])) s2

-- `CMD_SYN`, behind the test of the settings: a new channel for the stream.
unfoldable pub open_stream : ℕ → State → State
open_stream sid s = when (leb 2 s.peer_version) (send 7 sid []) (record s {
  streams = insert sid s.next s.streams;
  channels = insert s.next (record { queue = []; gone = false }) s.channels;
  next = s.next + 1;
})

-- `tx.send(d)` on a channel, once it has room; none if its reader is gone.
unfoldable pub deliver : ℕ → Bytes → State → Option State
deliver ch d s = elim (lookup ch s.channels) [
  | none ↦ none
  | some c ↦
      if c.gone
      then none
      else some
          (record s { channels = insert ch (record c { queue = c.queue ++ (d ∷ []) }) s.channels })
]

abbrev pub deliver_or : (State → State) → ℕ → Bytes → State → State
deliver_or otherwise ch d s = elim (deliver ch d s) [ some t ↦ t | none ↦ otherwise s ]

-- `CMD_PSH`
unfoldable pub handle_psh : ℕ → Bytes → State → State
handle_psh sid d s = elim (lookup sid s.streams) [
  | none ↦ s
  | some ch ↦ deliver_or (λ (t : State). record t { streams = remove sid t.streams }) ch d s
]

-- `CMD_FIN`
unfoldable pub handle_fin : ℕ → State → State
handle_fin sid s = elim (lookup sid s.streams) [
  | none ↦ s
  | some ch ↦ deliver_or (λ t. t) ch [] (record s { streams = remove sid s.streams })
]

-- Whether the loop goes on.
pub data Flow : Type 0 where
  go stop : State → Flow

abbrev pub no_settings : Bytes
no_settings =
    b'c' ∷ b'l' ∷ b'i' ∷ b'e' ∷ b'n' ∷ b't' ∷ b' ' ∷ b'd' ∷ b'i' ∷ b'd' ∷ b' ' ∷ b'n' ∷ b'o' ∷ b't'
    ∷ b' ' ∷ b's' ∷ b'e' ∷ b'n' ∷ b'd' ∷ b' ' ∷ b'i' ∷ b't' ∷ b's' ∷ b' ' ∷ b's' ∷ b'e' ∷ b't'
    ∷ b't' ∷ b'i' ∷ b'n' ∷ b'g' ∷ b's' ∷ b' ' ∷ b'b' ∷ b'e' ∷ b'f' ∷ b'o' ∷ b'r' ∷ b'e' ∷ b' '
    ∷ b'o' ∷ b'p' ∷ b'e' ∷ b'n' ∷ b'i' ∷ b'n' ∷ b'g' ∷ b' ' ∷ b'a' ∷ b' ' ∷ b's' ∷ b't' ∷ b'r'
    ∷ b'e' ∷ b'a' ∷ b'm' ∷ []

unfoldable pub handle_syn : ℕ → State → Flow
handle_syn sid s =
    if s.received_settings then go (open_stream sid s) else stop (send 5 0 no_settings s)

-- The `match cmd`.
unfoldable pub handle_frame : Scheme → Frame → State → Flow
handle_frame scheme f s =
    if f.cmd == 4
    then go (handle_settings scheme f.data' s)
    else if f.cmd == 1
    then handle_syn f.sid s
    else if f.cmd == 2
    then go (handle_psh f.sid f.data' s)
    else if f.cmd == 3
    then go (handle_fin f.sid s)
    else if f.cmd == 8
    then go (send 9 f.sid [] s)
    else if f.cmd == 5
    then stop s
    else go s
