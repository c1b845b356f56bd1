-- ===== src/Hysteria2/Sessions/Routed.antt =====
-- What every step of the sessions of src/hysteria2/server.rs keeps: frames go to their own session.
use ruproxy.Hysteria2.Sessions.{Step, Reach, datagram, finish, clean, start, after}
use ruproxy.Hysteria2.Frame.{UdpFrame, parse_udp_frame}
use ruproxy.Bytes.{Bytes}
use ruproxy.Hysteria2.Sessions.{
  Sessions, Task, on_frame, unmap, on_datagram, spawn, send_to, with_task, after, clean,
}
use ruproxy.Prelude.{
  ℕ, ◌<◌, ◌≡◌, refl, sym, ap, ◌∙◌, true, false, some, [], ◌∷◌, ◌++◌, ◌==◌, arith, All, inl, inr,
  Bool-cases, Option-cases, ==_iff, All-append, ==_refl, ne→==,
}
use ruproxy.Map.{nat_eq, lookup, lookup-remove, lookup-insert}
use ruproxy.Io.{Result-cases}

-- The frames of a task are those of its session.
abbrev pub OwnFrames : Task → Type 0
OwnFrames v = All (λ (f : UdpFrame). f.session_id ≡ v.session) v.inbox

-- An entry leads to a task of its session, and every task has frames of its own session only.
pub record IsRouted (s : Sessions) : Type 0 where
  pub entries :
      (id t : ℕ) → lookup id s.session_map ≡ some t → (t < s.next) × ((s.task t).session ≡ id)
  pub frames : (t : ℕ) → OwnFrames (s.task t)

some_inj : {a b : ℕ} → some a ≡ some b → a ≡ b
some_inj h = cc

with_task-OwnFrames :
    (t : ℕ) (v : Task) (f : ℕ → Task) (j : ℕ)
    → OwnFrames v
    → OwnFrames (f j)
    → OwnFrames (with_task t v f j)
with_task-OwnFrames t v f j own others = elim (Bool-cases (j == t)) [
  | inl here ↦ rw here own
  | inr elsewhere ↦ rw elsewhere others
]

-- A change of a task that keeps its session.
with_task-session :
    (t : ℕ) (v : Task) (f : ℕ → Task) (j : ℕ)
    → v.session ≡ (f t).session
    → (with_task t v f j).session ≡ (f j).session
with_task-session t v f j same = elim (Bool-cases (j == t)) [
  | inl here ↦ rw here (same ∙ ap (λ i. (f i).session) (sym ((==_iff j t).0 here)))
  | inr elsewhere ↦ rw elsewhere refl
]

-- A task changes, its session does not.
changed :
    (t : ℕ) (v : Task) (s : Sessions)
    → v.session ≡ (s.task t).session
    → OwnFrames v
    → IsRouted s
    → IsRouted (record s { task = with_task t v s.task })
changed t v s same own r = record {
  entries = λ id j found.
      let (small, of_id) = r.entries id j found in
      (small, with_task-session t v s.task j same ∙ of_id);
  frames = λ j. with_task-OwnFrames t v s.task j own (r.frames j);
}

unmap-IsRouted : (id : ℕ) (s : Sessions) → IsRouted s → IsRouted (unmap id s)
unmap-IsRouted id s r = record {
  entries = λ j t found. r.entries j t (ground (arith, found, lookup-remove id j s.session_map));
  frames = r.frames;
}

spawn-IsRouted : (frame : UdpFrame) (s : Sessions) → IsRouted s → IsRouted (spawn frame s)
spawn-IsRouted frame s r =
    let v : Task = record {
      session = frame.session_id;
      alive = true;
      removed = false;
      inbox = frame ∷ [];
    } in
    record {
      entries = λ j t found. elim (Bool-cases (frame.session_id == j)) [
        | inl here ↦
            let same : s.next ≡ t = some_inj (
              sym (lookup-insert frame.session_id j s.next s.session_map ∙ rw here refl) ∙ found) in
            (omega arith, rw (sym same) (rw (==_refl s.next) ((==_iff frame.session_id j).0 here)))
        | inr elsewhere ↦
            let old : lookup j s.session_map ≡ some t =
              sym (lookup-insert frame.session_id j s.next s.session_map ∙ rw elsewhere refl)
              ∙ found in
            let (small, of_id) = r.entries j t old in
            (omega arith, rw (ne→== t s.next (omega arith)) of_id)
      ];
      frames = λ t. with_task-OwnFrames s.next v s.task t (refl, tt) (r.frames t);
    }

send_to-IsRouted :
    (t : ℕ) (frame : UdpFrame) (s : Sessions)
    → lookup frame.session_id s.session_map ≡ some t
    → IsRouted s
    → IsRouted (send_to t frame s)
send_to-IsRouted t frame s found r = elim (Bool-cases (s.task t).alive) [
  | inl alive ↦
      let v : Task = record (s.task t) { alive = true; inbox = (s.task t).inbox ++ (frame ∷ []) } in
      let own : OwnFrames v =
        All-append (λ (f : UdpFrame). f.session_id ≡ v.session) (s.task t).inbox (frame ∷ [])
          (r.frames t) (sym (r.entries frame.session_id t found).1, tt) in
      rw alive (changed t v s refl own r)
  | inr gone ↦ rw gone (unmap-IsRouted frame.session_id s r)
]

on_frame-IsRouted : (frame : UdpFrame) (s : Sessions) → IsRouted s → IsRouted (on_frame frame s)
unfolding on_frame
on_frame-IsRouted frame s r = elim (Option-cases (lookup frame.session_id s.session_map)) [
  | inl none_there ↦ rw (none_there, on_frame) (spawn-IsRouted frame s r)
  | inr (t, found) ↦ rw (found, on_frame) (send_to-IsRouted t frame s found r)
]

on_datagram-IsRouted : (bytes : Bytes) (s : Sessions) → IsRouted s → IsRouted (on_datagram bytes s)
on_datagram-IsRouted bytes s r = elim (Result-cases (parse_udp_frame bytes)) [
  | inl (frame, parsed) ↦ rw (parsed, on_datagram) (on_frame-IsRouted frame s r)
  | inr (e, bad) ↦ rw (bad, on_datagram) r
]

Step-IsRouted : {s t : Sessions} → Step s t → IsRouted s → IsRouted t
Step-IsRouted (datagram bytes s) r = on_datagram-IsRouted bytes s r
Step-IsRouted (finish t s alive) r =
    changed t (record (s.task t) { alive = false }) s refl (r.frames t) r
Step-IsRouted (clean t s ended kept) r =
    changed t (record (s.task t) { removed = true }) (unmap (s.task t).session s) refl (r.frames t)
      (unmap-IsRouted (s.task t).session s r)

-- In every reachable state of the UDP sessions, however datagrams and the ends of tasks
-- interleave, an entry of the map leads to a task of its own session, and every task was sent
-- frames of its own session only.
pub Reach-IsRouted : {s : Sessions} → Reach s → IsRouted s
unfolding lookup
Reach-IsRouted start = record { entries = λ id t found. cc; frames = λ t. tt }
Reach-IsRouted (after reached step) = Step-IsRouted step (Reach-IsRouted reached)
