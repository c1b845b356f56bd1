-- ===== src/Tests/XhttpServer.antt =====
-- The theorems on the session table of src/common/transport/xhttp.rs, at concrete inputs.
use ruproxy.Text.{trim_end_matches, trim_start_matches, split_once}
use ruproxy.Bytes.{Bytes, bytes_eq}
use ruproxy.Ids.{mem}
use ruproxy.Xhttp.Path.{XhttpConfig, parse_path, strip_prefix, normalized_path}
use ruproxy.Xhttp.Server.{
  Server, Task, Request, get, post, get_table, has_room, send_up, new_server, handle_request,
  handle_get, handle_post, dispatch, get_or_create_session, take_receivers, send_ready,
}
use ruproxy.Xhttp.Server.Moves.{go_on, expire, moved, Reach, request, resume, forward, start, after}
use ruproxy.Xhttp.Server.Keeps.{IsServer}
use ruproxy.Xhttp.Server.Once.{Reach-IsServer}
use ruproxy.Xhttp.Server.Table.{send_up-room}
use ruproxy.Xhttp.Server.Locked.{expire-IsLocked, expire-full}
use ruproxy.Xhttp.Server.Blocked.{is_stuck, Waits}
use ruproxy.Xhttp.Stream.{UploadPacket, finish, chunk}
use ruproxy.Map.{bytes_key, lookup, remove, insert}
use ruproxy.Prelude.{
  ℕ, zero, suc, ◌≤◌, ◌≡◌, refl, ap, ◌∙◌, true, false, none, some, [], ◌∷◌, length, arith, lt→ltb,
  length-append, le→ltb,
}

abbrev cfg : XhttpConfig
cfg = record { path = b'/' ∷ b'v' ∷ []; host = none }

abbrev path : Bytes
path = b'/' ∷ b'v' ∷ b'/' ∷ b's' ∷ []

abbrev down : Request
down = record { method = get; host = none; path = path; body = some [] }

abbrev up : Request
up = record { method = post; host = none; path = path; body = some [] }

-- One GET of a session up to the end, and then another.
abbrev asked : Server
asked = moved 0 (handle_request cfg down new_server)

abbrev found : Server
found = moved 0 (go_on (asked.tasks 0) asked)

abbrev took : Server
took = moved 0 (go_on (found.tasks 0) found)

abbrev sent : Server
sent = moved 0 (go_on (took.tasks 0) took)

Reach-IsServer_example : IsServer sent
Reach-IsServer_example = Reach-IsServer {cfg = cfg} {s = sent} (
    after
      (after (after (after start (request 0 down new_server refl)) (resume 0 asked))
        (resume 0 found))
      (resume 0 took))

-- The stream of the session is on its way to `accept`.
sent-ready : sent.ready ≡ 0 ∷ []
unfolding handle_request dispatch handle_get go_on get_or_create_session take_receivers send_ready
    parse_path strip_prefix normalized_path trim_end_matches trim_start_matches split_once bytes_eq
    lookup insert remove
sent-ready = refl

-- A POST creates a session, and then a GET comes and waits for the lock of the table.
abbrev posted : Server
posted = moved 0 (handle_request cfg up new_server)

abbrev created : Server
created = moved 0 (go_on (posted.tasks 0) posted)

abbrev opened : Server
opened = moved 1 (handle_request cfg down created)

-- The session after `n` frames of the body.
record IsFilled (n : ℕ) (s : Server) : Type 0 where
  reach : Reach cfg new_server s
  held : s.held ≡ none
  sessions : s.sessions ≡ (b's' ∷ [], 0) ∷ []
  task : s.tasks 1 ≡ get_table (b's' ∷ [])
  untaken : (s.session 0).up_taken ≡ false
  there : (s.session 0).closed ≡ false
  size : length (s.session 0).up ≡ n

created-idle : created.tasks 1 ≡ Task.idle
unfolding handle_request dispatch handle_post go_on get_or_create_session parse_path strip_prefix
    normalized_path trim_end_matches trim_start_matches split_once bytes_eq lookup insert remove
created-idle = refl

opened-IsFilled : IsFilled 0 opened
unfolding handle_request dispatch handle_get handle_post go_on get_or_create_session parse_path
    strip_prefix normalized_path trim_end_matches trim_start_matches split_once bytes_eq lookup
    insert remove
opened-IsFilled = record {
  reach =
      after (after (after start (request 0 up new_server refl)) (resume 0 posted))
        (request 1 down created created-idle);
  held = refl;
  sessions = refl;
  task = refl;
  untaken = refl;
  there = refl;
  size = refl;
}

abbrev frame : UploadPacket
frame = chunk (1 ∷ [])

fill : ℕ → Server
fill zero = opened
fill (suc n) = send_up 0 frame (fill n)

fill-IsFilled : (n : ℕ) → n ≤ 64 → IsFilled n (fill n)
unfolding fill
fill-IsFilled zero h = opened-IsFilled
fill-IsFilled (suc n) h =
    let f = fill-IsFilled n (omega arith) in
    let s = fill n in
    let room : has_room (s.session 0) ≡ true = lt→ltb _ _ (omega (arith, f.size)) in
    let e = send_up-room 0 frame s f.there room in
    record {
      reach = after f.reach (forward 0 frame s);
      held = ap (λ t. t.held) e ∙ f.held;
      sessions = ap (λ t. t.sessions) e ∙ f.sessions;
      task = ap (λ t. t.tasks 1) e ∙ f.task;
      untaken = ap (λ t. (t.session 0).up_taken) e ∙ f.untaken;
      there = ap (λ t. (t.session 0).closed) e ∙ f.there;
      size =
          ap (λ t. length (t.session 0).up) e
          ∙ length-append (s.session 0).up (frame ∷ [])
          ∙ omega (arith, f.size);
    }

filled : IsFilled 64 (fill 64)
filled = fill-IsFilled 64 (omega arith)

full : Server
full = fill 64

full-found : lookup (b's' ∷ []) full.sessions ≡ some 0
unfolding full lookup bytes_eq
full-found = rw filled.sessions refl

-- The GET goes on waiting.
expired-stuck : is_stuck 0 ((expire (b's' ∷ []) full).tasks 1) ≡ true
unfolding full
expired-stuck =
    let no_room : has_room (full.session 0) ≡ false = le→ltb _ _ (omega (arith, filled.size)) in
    ap (λ t. is_stuck 0 (t.tasks 1))
      (expire-full (b's' ∷ []) 0 full full-found (rw (filled.there, no_room) refl))
    ∙ ap (is_stuck 0) filled.task

abbrev later : Server
later = send_up 0 finish (expire (b's' ∷ []) full)

expire-IsLocked_example :
    (later.held ≡ some 0)
    × (later.sessions ≡ remove (b's' ∷ []) full.sessions)
    × (mem later.ready 0 ≡ false)
    × Waits ((expire (b's' ∷ []) full).tasks 1) (later.tasks 1)
unfolding full
expire-IsLocked_example =
    expire-IsLocked {cfg = cfg} (b's' ∷ []) 0 1 {s = full} {t = expire (b's' ∷ []) full} {u = later}
      filled.reach filled.held full-found filled.untaken (omega (arith, filled.size)) start
      expired-stuck (after start (forward 0 finish (expire (b's' ∷ []) full)))
