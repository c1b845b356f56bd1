-- ===== src/Xhttp/Server/Moves.antt =====
-- How the handlers of src/common/transport/xhttp.rs go on from their waits, and what can happen in
-- which order: requests, the tasks of the sessions, `accept` and the readers of the streams.
use ruproxy.Bytes.{Bytes}
use ruproxy.Xhttp.Path.{XhttpConfig}
use ruproxy.Xhttp.Stream.{UploadPacket, finish}
use ruproxy.Xhttp.Server.{
  Server, Task, Request, idle, get_table, post_table, get_session, post_session, get_send,
  post_send, answered, dropped, plain, ok_status, set_session, set_task, table_free, is_locked,
  can_send, send_up, get_or_create_session, take_receivers, send_ready, post_to, handle_request,
}
use ruproxy.Ids.{mem}
use ruproxy.Map.{bytes_key, lookup, remove}
use ruproxy.Prelude.{
  ℕ, ◌+◌, ◌-◌, ◌<◌, ◌≡◌, Bool, true, false, none, some, List, length, drop, if◌then◌else◌,
}

-- A handler goes on from its wait, if what it waits for is there.
unfoldable pub go_on : Task → Server → Task × Server
go_on (get_table id) s =
    if table_free s
    then (let r = get_or_create_session id s in (get_session r.0, r.1))
    else (get_table id, s)
go_on (post_table id seq_str body) s =
    if table_free s
    then (let r = get_or_create_session id s in (post_session r.0 seq_str body, r.1))
    else (post_table id seq_str body, s)
go_on (get_session k) s = if is_locked k s then (get_session k, s) else take_receivers k s
go_on (post_session k seq_str body) s =
    if is_locked k s then (post_session k seq_str body, s) else (post_to k seq_str body, s)
go_on (get_send k) s = send_ready k s
go_on (post_send k p) s =
    if can_send (s.session k)
    then (answered (plain ok_status), send_up k p s)
    else (post_send k p, s)
go_on idle s = (idle, s)
go_on (answered r) s = (answered r, s)
go_on dropped s = (dropped, s)

abbrev pub is_waiting : Task → Bool
is_waiting idle = false
is_waiting (answered r) = false
is_waiting dropped = false
is_waiting _ = true

-- The receiver of a stream is dropped.
abbrev pub close : ℕ → Server → Server
close k s = set_session k (record (s.session k) { closed = true }) s

-- A handler that is dropped at its wait drops the stream that it was to send.
unfoldable pub abandon : Task → Server → Server
abandon (get_send k) s = close k s
abandon _ s = s

-- The task of a session whose GET did not come in time removes it and tells its reader, under the
-- locks of the table and the session; without room in the channel it keeps them.
unfoldable pub expire : Bytes → Server → Server
expire session_id s = elim (lookup session_id s.sessions) [
  | none ↦ s
  | some k ↦
      let t : Server = record s { sessions = remove session_id s.sessions } in
      if can_send (s.session k) then send_up k finish t else record t { held = some k }
]

-- The task of a session whose GET came.
abbrev pub clean_up : Bytes → Server → Server
clean_up session_id s = record s { sessions = remove session_id s.sessions }

-- The reader of a stream takes a packet.
abbrev pub receive : ℕ → Server → Server
receive k s = let v = s.session k in set_session k (record v { up = drop 1 v.up }) s

-- The streams that `accept` has given out: the oldest of those that were sent.
abbrev pub given : Server → List ℕ
given s = drop (length s.ready - s.accepted) s.ready

-- The state after a handler's move.
abbrev pub moved : ℕ → Task × Server → Server
moved i r = set_task i r.0 r.1

-- What can happen. A timer may run out at any time, and the tasks of the sessions then need the lock
-- of the table; a frame of a body needs its channel only; a stream is read, or dropped, by whom
-- `accept` gave it to. The task that holds the lock goes on when its channel has room.
pub data Step (cfg : XhttpConfig) : Server → Server → Type 0 where
  request :
      (i : ℕ) (req : Request) (s : Server)
      → s.tasks i ≡ idle
      → Step cfg s (moved i (handle_request cfg req s))
  resume : (i : ℕ) (s : Server) → Step cfg s (moved i (go_on (s.tasks i) s))
  cancel :
      (i : ℕ) (s : Server)
      → is_waiting (s.tasks i) ≡ true
      → Step cfg s (set_task i dropped (abandon (s.tasks i) s))
  accept :
      (s : Server)
      → s.accepted < length s.ready
      → Step cfg s (record s { accepted = s.accepted + 1 })
  late : (id : Bytes) (s : Server) → s.held ≡ none → Step cfg s (expire id s)
  old : (id : Bytes) (s : Server) → s.held ≡ none → Step cfg s (clean_up id s)
  forward : (k : ℕ) (p : UploadPacket) (s : Server) → Step cfg s (send_up k p s)
  taken : (k : ℕ) (s : Server) → mem (given s) k ≡ true → Step cfg s (receive k s)
  hang_up : (k : ℕ) (s : Server) → mem (given s) k ≡ true → Step cfg s (close k s)
  release :
      (k : ℕ) (s : Server)
      → s.held ≡ some k
      → can_send (s.session k) ≡ true
      → Step cfg s (record (send_up k finish s) { held = none })

pub data Reach (cfg : XhttpConfig) : Server → Server → Type 0 where
  start : {s : Server} → Reach cfg s s
  after : {s t u : Server} → Reach cfg s t → Step cfg t u → Reach cfg s u
