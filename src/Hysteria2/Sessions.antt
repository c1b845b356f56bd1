-- ===== src/Hysteria2/Sessions.antt =====
-- `datagram_loop` of src/hysteria2/server.rs: the UDP sessions of a connection and their tasks.
pub mod Routed
pub mod Twice
use ruproxy.Io.{ok, err}
use ruproxy.Hysteria2.Frame.{UdpFrame, parse_udp_frame}
use ruproxy.Bytes.{Bytes}
use ruproxy.Prelude.{
  ℕ, zero, suc, ◌+◌, ◌-◌, ◌*◌, ◌/◌, ◌%◌, ◌^◌, ◌≤◌, ◌<◌, ◌≡◌, ◌≢◌, refl, sym, ap, ap₂, ◌∙◌, subst,
  Bool, true, false, not, ◌&&◌, ◌||◌, Option, none, some, List, [], ◌∷◌, ◌++◌, ◌==◌, ltb, leb,
  length, take, drop, get_or, if◌then◌else◌, arith, All, ◌⊎◌, inl, inr, min, max, bit_and, bit_or,
  bit_xor, ◌↔◌, append_assoc, append-nil, length-append, Bool-cases,
}
use ruproxy.Map.{nat_eq, remove, Map, lookup, insert}

-- The task of a session: which one, whether it still takes frames, whether it has removed its entry,
-- and the frames that were sent to it.
pub record Task : Type 0 where
  pub session : ℕ
  pub alive : Bool
  pub removed : Bool
  pub inbox : List UdpFrame

-- `session_map`, whose senders lead to tasks, and the tasks by their number, below `next`.
pub record Sessions : Type 0 where
  pub session_map : Map ℕ ℕ
  pub next : ℕ
  pub task : ℕ → Task

abbrev pub no_task : Task
no_task = record { session = 0; alive = false; removed = true; inbox = [] }

abbrev pub new_sessions : Sessions
new_sessions = record { session_map = []; next = 0; task = λ t. no_task }

abbrev pub with_task : ℕ → Task → (ℕ → Task) → ℕ → Task
with_task t v f j = if j == t then v else f j

abbrev pub unmap : ℕ → Sessions → Sessions
unmap session_id s = record s { session_map = remove session_id s.session_map }

-- `tx.send(frame)`, which fails if the task is gone; the entry is removed then, and the frame lost.
-- A full channel makes the loop wait, which changes nothing.
abbrev pub send_to : ℕ → UdpFrame → Sessions → Sessions
send_to t frame s =
    let v = s.task t in
    if v.alive
    then record s { task = with_task t (record v { inbox = v.inbox ++ (frame ∷ []) }) s.task }
    else unmap frame.session_id s

-- A new session: its task has the frame.
abbrev pub spawn : UdpFrame → Sessions → Sessions
spawn frame s = record {
  session_map = insert frame.session_id s.next s.session_map;
  next = s.next + 1;
  task =
      with_task s.next
        (record { session = frame.session_id; alive = true; removed = false; inbox = frame ∷ [] })
        s.task;
}

-- One round of `datagram_loop`, on a frame that `parse_udp_frame` took.
unfoldable pub on_frame : UdpFrame → Sessions → Sessions
on_frame frame s = elim (lookup frame.session_id s.session_map) [
  | none ↦ spawn frame s
  | some t ↦ send_to t frame s
]

-- One round on a datagram: a bad one is dropped.
abbrev pub on_datagram : Bytes → Sessions → Sessions
on_datagram datagram s = elim (parse_udp_frame datagram) [ err e ↦ s | ok frame ↦ on_frame frame s ]

-- A task's `handle_udp_session` returns, which ends its channel, …
abbrev pub end_session : ℕ → Sessions → Sessions
end_session t s = record s { task = with_task t (record (s.task t) { alive = false }) s.task }

-- … and then it removes the entry of its session.
abbrev pub remove_session : ℕ → Sessions → Sessions
remove_session t s = record (unmap (s.task t).session s) {
  task = with_task t (record (s.task t) { removed = true }) s.task;
}

-- What can happen: a datagram comes, a task ends, or one that has ended removes the entry.
pub data Step : Sessions → Sessions → Type 0 where
  datagram : (bytes : Bytes) (s : Sessions) → Step s (on_datagram bytes s)
  finish : (t : ℕ) (s : Sessions) → (s.task t).alive ≡ true → Step s (end_session t s)
  clean :
      (t : ℕ) (s : Sessions)
      → (s.task t).alive ≡ false
      → (s.task t).removed ≡ false
      → Step s (remove_session t s)

pub data Reach : Sessions → Type 0 where
  start : Reach new_sessions
  after : {s t : Sessions} → Reach s → Step s t → Reach t
