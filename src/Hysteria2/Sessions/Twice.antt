-- ===== src/Hysteria2/Sessions/Twice.antt =====
-- A session of src/hysteria2/server.rs that ends while its client goes on.
use ruproxy.Hysteria2.Frame.{UdpFrame}
use ruproxy.Hysteria2.Sessions.{Sessions, on_frame, Task, spawn, unmap, remove_session}
use ruproxy.Prelude.{
  ℕ, ◌+◌, ◌<◌, ◌≡◌, refl, subst, true, false, none, some, [], ◌∷◌, ◌==◌, arith, ne→==, ==_refl,
}
use ruproxy.Map.{nat_eq, lookup, lookup-remove_self, lookup-insert_self}

-- The task of a session has ended and has not removed its entry yet.
pub record Ended (id t : ℕ) (s : Sessions) : Type 0 where
  pub entry : lookup id s.session_map ≡ some t
  pub session : (s.task t).session ≡ id
  pub alive : (s.task t).alive ≡ false
  pub small : t < s.next

on_frame_lost :
    (frame : UdpFrame) (t : ℕ) (s : Sessions)
    → lookup frame.session_id s.session_map ≡ some t
    → (s.task t).alive ≡ false
    → on_frame frame s ≡ unmap frame.session_id s
unfolding on_frame
on_frame_lost frame t s found ended = rw (found, on_frame) (rw ended refl)

on_frame_new :
    (frame : UdpFrame) (s : Sessions)
    → lookup frame.session_id s.session_map ≡ none
    → on_frame frame s ≡ spawn frame s
unfolding on_frame
on_frame_new frame s missing = rw (missing, on_frame) refl

abbrev pub task_of : UdpFrame → Task
task_of frame = record {
  session = frame.session_id;
  alive = true;
  removed = false;
  inbox = frame ∷ [];
}

-- Three frames of the session, with the late removal between the second and the third.
abbrev pub three_frames : UdpFrame → UdpFrame → UdpFrame → ℕ → Sessions → Sessions
three_frames f1 f2 f3 t s = on_frame f3 (remove_session t (on_frame f2 (on_frame f1 s)))

three_frames_end :
    (f1 f2 f3 : UdpFrame) (t : ℕ) (s : Sessions)
    → f2.session_id ≡ f1.session_id
    → f3.session_id ≡ f1.session_id
    → Ended f1.session_id t s
    → three_frames f1 f2 f3 t s ≡ spawn f3 (remove_session t (spawn f2 (unmap f1.session_id s)))
three_frames_end f1 f2 f3 t s same2 same3 e =
    let id = f1.session_id in
    let s2 = spawn f2 (unmap id s) in
    let first = on_frame_lost f1 t s e.entry e.alive in
    let second : on_frame f2 (unmap id s) ≡ s2 =
      on_frame_new f2 (unmap id s) (rw same2 (lookup-remove_self id s.session_map)) in
    let old : (s2.task t).session ≡ id = rw (ne→== t s.next (omega (arith, e.small))) e.session in
    let third : on_frame f3 (remove_session t s2) ≡ spawn f3 (remove_session t s2) =
      on_frame_new f3 (remove_session t s2)
        (rw (same3, old) (lookup-remove_self id s2.session_map)) in
    rw (first, second) third

-- If the task of a session has ended and not yet removed its entry, and three more frames of the
-- session come, with the removal between the second and the third, then the first is lost, the
-- second starts a task that has this frame alone, and the third starts another one, to which the
-- entry leads, though the former is still alive.
pub three_frames-Ended :
    (f1 f2 f3 : UdpFrame) (t : ℕ) (s : Sessions)
    → f2.session_id ≡ f1.session_id
    → f3.session_id ≡ f1.session_id
    → Ended f1.session_id t s
    → ((three_frames f1 f2 f3 t s).task s.next ≡ task_of f2)
      × ((three_frames f1 f2 f3 t s).task (s.next + 1) ≡ task_of f3)
      × (lookup f1.session_id (three_frames f1 f2 f3 t s).session_map ≡ some (s.next + 1))
three_frames-Ended f1 f2 f3 t s same2 same3 e =
    let end = three_frames_end f1 f2 f3 t s same2 same3 e in
    let apart : (s.next == s.next + 1) ≡ false = ne→== s.next (s.next + 1) (omega arith) in
    let older : (s.next == t) ≡ false = ne→== s.next t (omega (arith, e.small)) in
    (
      rw end (rw (apart, older, ==_refl s.next) refl),
      rw end (rw (==_refl (s.next + 1)) refl),
      subst (λ k. lookup k (three_frames f1 f2 f3 t s).session_map ≡ some (s.next + 1)) same3
          (rw end (
            lookup-insert_self f3.session_id (s.next + 1)
              (remove_session t (spawn f2 (unmap f1.session_id s))).session_map)),
    )
