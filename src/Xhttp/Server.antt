-- ===== src/Xhttp/Server.antt =====
-- The session table of src/common/transport/xhttp.rs and the handlers of its requests, which run as
-- tasks: a handler is a function from one of its waits to the next.
pub mod Keeps
pub mod Moves
pub mod Hands
pub mod Table
pub mod Handlers
pub mod Once
pub mod Waits
pub mod Blocked
pub mod Locked
use ruproxy.Text.{parse_unsigned}
use ruproxy.Bytes.{Bytes, bytes_eq}
use ruproxy.Xhttp.Path.{XhttpConfig, parse_path, normalized_path}
use ruproxy.Xhttp.Stream.{UploadPacket, numbered, finish}
use ruproxy.Prelude.{
  ℕ, ◌+◌, ◌-◌, ◌^◌, ◌<◌, ◌≡◌, Bool, true, false, not, ◌&&◌, ◌||◌, Option, none, some, List, [], ◌∷◌,
  ◌++◌, ◌==◌, ltb, length, drop, if◌then◌else◌,
}
use ruproxy.Ids.{mem}
use ruproxy.Map.{bytes_key, Map, remove, lookup, insert}
use ruproxy.Io.{ok, err}

-- `Session` with its upward channel; the receivers are taken by a GET, and `closed` says that the
-- one of the upward channel was dropped.
pub record Session : Type 0 where
  pub up : List UploadPacket
  pub up_taken : Bool
  pub down_taken : Bool
  pub closed : Bool

-- What a request gets: the downward stream, or a status.
pub data Response : Type 0 where
  stream : ℕ → Response
  plain : ℕ → Response

-- Where a handler of a request stands. It waits for the lock of the table (`get_table`,
-- `post_table`), then for the lock of its session (`get_session`, `post_session`), and then for
-- room in the channel of `accept` or of its session (`get_send`, `post_send`); a body that cannot
-- be collected is none. `dropped`: the connection was closed while it waited.
pub data Task : Type 0 where
  idle : Task
  get_table : Bytes → Task
  post_table : Bytes → Option Bytes → Option Bytes → Task
  get_session : ℕ → Task
  post_session : ℕ → Option Bytes → Option Bytes → Task
  get_send : ℕ → Task
  post_send : ℕ → UploadPacket → Task
  answered : Response → Task
  dropped : Task

-- `ServerInner`: the table, the sessions by a number below `next`, those that were sent to `accept`,
-- newest first, with the count of those that it received, and the session whose task holds the
-- lock of the table, and that of the session, while it waits for room; and the handlers.
pub record Server : Type 0 where
  pub sessions : Map Bytes ℕ
  pub next : ℕ
  pub session : ℕ → Session
  pub ready : List ℕ
  pub accepted : ℕ
  pub held : Option ℕ
  pub tasks : ℕ → Task

abbrev pub new_session : Session
new_session = record { up = []; up_taken = false; down_taken = false; closed = false }

abbrev pub new_server : Server
new_server = record {
  sessions = [];
  next = 0;
  session = λ k. new_session;
  ready = [];
  accepted = 0;
  held = none;
  tasks = λ i. idle;
}

abbrev pub set_session : ℕ → Session → Server → Server
set_session k v s = record s { session = λ j. if j == k then v else s.session j }

abbrev pub set_task : ℕ → Task → Server → Server
set_task i x s = record s { tasks = λ j. if j == i then x else s.tasks j }

-- The table is free; a session is locked only by its task, which holds the table too.
abbrev pub table_free : Server → Bool
table_free s = elim s.held [ none ↦ true | some k ↦ false ]

abbrev pub is_locked : ℕ → Server → Bool
is_locked k s = elim s.held [ none ↦ false | some j ↦ j == k ]

-- The channels hold 64 packets, and that of `accept` 64 streams.
abbrev pub has_room : Session → Bool
has_room v = ltb (length v.up) 64

abbrev pub ready_has_room : Server → Bool
ready_has_room s = ltb (length s.ready) (s.accepted + 64)

-- `up_tx.send` is over at once if the receiver is gone or there is room.
abbrev pub can_send : Session → Bool
can_send v = v.closed || has_room v

abbrev pub send_up : ℕ → UploadPacket → Server → Server
send_up k p s =
    let v = s.session k in
    if v.closed
    then s
    else if has_room v
    then set_session k (record v { up = v.up ++ (p ∷ []) }) s
    else s

-- A session that is not in the table yet.
abbrev pub add_session : Bytes → Server → Server
add_session session_id s = record (set_session s.next new_session s) {
  sessions = insert session_id s.next s.sessions;
  next = s.next + 1;
}

-- Under the lock of the table.
unfoldable pub get_or_create_session : Bytes → Server → ℕ × Server
get_or_create_session session_id s = elim (lookup session_id s.sessions) [
  | some k ↦ (k, s)
  | none ↦ (s.next, add_session session_id s)
]

abbrev pub ok_status : ℕ
ok_status = 200

abbrev pub bad_request : ℕ
bad_request = 400

abbrev pub not_found : ℕ
not_found = 404

abbrev pub conflict : ℕ
conflict = 409

-- `handle_get`, under the lock of its session: it takes both receivers, and goes on to send the
-- stream. A receiver that it took alone is dropped.
unfoldable pub take_receivers : ℕ → Server → Task × Server
take_receivers k s =
    let v = s.session k in
    if v.up_taken
    then (answered (plain conflict), s)
    else if v.down_taken
    then (answered (plain conflict), set_session k (record v { up_taken = true; closed = true }) s)
    else (get_send k, set_session k (record v { up_taken = true; down_taken = true }) s)

-- `handle_get`: without a session id, the channels are new and in no table.
unfoldable pub stream_one : Server → Task × Server
stream_one s = (
  get_send s.next,
  record (set_session s.next (record new_session { up_taken = true; down_taken = true }) s) {
    next = s.next + 1;
  },
)

-- `handle_get`, up to its first wait.
unfoldable pub handle_get : Option Bytes → Server → Task × Server
handle_get none s = stream_one s
handle_get (some session_id) s = (get_table session_id, s)

-- `handle_get`, with the stream: `ready_tx.send`.
unfoldable pub send_ready : ℕ → Server → Task × Server
send_ready k s =
    if ready_has_room s
    then (answered (stream k), record s { ready = k ∷ s.ready })
    else (get_send k, s)

-- `handle_post`, with the channel of the session: a body without a number is forwarded later, frame
-- by frame; one with a number is a packet.
unfoldable pub post_to : ℕ → Option Bytes → Option Bytes → Task
post_to k none body = answered (plain ok_status)
post_to k (some seq_str) body = elim (parse_unsigned (2 ^ 64) seq_str) [
  | err e ↦ answered (plain bad_request)
  | ok seq ↦ elim body [
    | none ↦ answered (plain ok_status)
    | some d ↦ post_send k (numbered (record { seq = seq; data' = d }))
  ]
]

-- `handle_post`, up to its first wait.
unfoldable pub handle_post : Option Bytes → Option Bytes → Option Bytes → Task
handle_post none seq_str body = answered (plain bad_request)
handle_post (some session_id) seq_str body = post_table session_id seq_str body

pub data Method : Type 0 where
  get post options : Method

pub record Request : Type 0 where
  pub method : Method
  pub host : Option Bytes
  pub path : Bytes
  pub body : Option Bytes

abbrev pub is_get : Method → Bool
is_get get = true
is_get _ = false

abbrev pub is_options : Method → Bool
is_options options = true
is_options _ = false

-- `handle_request`, the host: one that is configured must be the header's.
abbrev pub bad_host : XhttpConfig → Request → Bool
bad_host cfg req = elim cfg.host [
  | none ↦ false
  | some expected ↦ not (bytes_eq (elim req.host [ none ↦ [] | some h ↦ h ]) expected)
]

abbrev pub is_none : Option Bytes → Bool
is_none none = true
is_none (some x) = false

unfoldable pub dispatch : Request → Option (Option Bytes × Option Bytes) → Server → Task × Server
dispatch req none s = (answered (plain not_found), s)
dispatch req (some (session_id, seq_str)) s =
    if is_get req.method && is_none seq_str
    then handle_get session_id s
    else (handle_post session_id seq_str req.body, s)

-- `handle_request`, up to its first wait.
unfoldable pub handle_request : XhttpConfig → Request → Server → Task × Server
handle_request cfg req s =
    if bad_host cfg req
    then (answered (plain not_found), s)
    else if is_options req.method
    then (answered (plain ok_status), s)
    else dispatch req (parse_path req.path (normalized_path cfg.path)) s
