-- ===== src/Xhttp/Server/Waits.antt =====
-- What the handlers of src/common/transport/xhttp.rs leave as it is while the task of a session holds
-- the lock of the table.
use ruproxy.Bytes.{Bytes}
use ruproxy.Xhttp.Stream.{UploadPacket}
use ruproxy.Xhttp.Path.{XhttpConfig, parse_path, normalized_path}
use ruproxy.Prelude.{
  ℕ, ◌≤◌, ◌<◌, ◌≡◌, ◌≢◌, refl, sym, ap, subst, true, false, ◌&&◌, Option, none, some, [], ◌∷◌, ◌++◌,
  ◌==◌, arith, inl, inr, Bool-cases, ne→==, Option-cases,
}
use ruproxy.Map.{bytes_key}
use ruproxy.Xhttp.Server.{
  Server, Session, Task, Request, idle, get_table, post_table, get_session, post_session, get_send,
  post_send, answered, dropped, set_session, table_free, is_locked, has_room, can_send, send_up,
  take_receivers, send_ready, handle_request, handle_get, dispatch, stream_one, ready_has_room,
  bad_host, is_get, is_options, is_none,
}
use ruproxy.Xhttp.Server.Moves.{go_on, abandon}
use ruproxy.Xhttp.Server.Keeps.{IsServer, sender}
use ruproxy.Xhttp.Server.Table.{send_up-room}

-- The task of session `k` holds the locks and waits for a channel that nobody reads.
pub record IsLocked (k : ℕ) (s : Server) : Type 0 where
  pub lock : s.held ≡ some k
  pub unread : (s.session k).up_taken ≡ false
  pub full : can_send (s.session k) ≡ false
  pub small : k < s.next

-- What a move of a handler leaves as it is.
pub record IsSame (k : ℕ) (s t : Server) : Type 0 where
  pub held : t.held ≡ s.held
  pub session : t.session k ≡ s.session k
  pub sessions : t.sessions ≡ s.sessions
  pub tasks : t.tasks ≡ s.tasks
  pub next : s.next ≤ t.next

pub IsSame-refl : (k : ℕ) (s : Server) → IsSame k s s
IsSame-refl k s = record {
  held = refl;
  session = refl;
  sessions = refl;
  tasks = refl;
  next = omega arith;
}

-- Another session changes.
pub set_session-IsSame :
    (j : ℕ) (v : Session) (k : ℕ) (s : Server) → j ≢ k → IsSame k s (set_session j v s)
set_session-IsSame j v k s other = record {
  held = refl;
  session = rw (ne→== k j (λ e. other (sym e))) refl;
  sessions = refl;
  tasks = refl;
  next = omega arith;
}

pub send_up-IsSame :
    (j : ℕ) (p : UploadPacket) (k : ℕ) (s : Server)
    → can_send (s.session k) ≡ false
    → IsSame k s (send_up j p s)
send_up-IsSame j p k s full = elim (Bool-cases (s.session j).closed) [
  | inl gone ↦ rw gone (IsSame-refl k s)
  | inr there ↦ elim (Bool-cases (has_room (s.session j))) [
    | inr none_left ↦ rw (there, none_left) (IsSame-refl k s)
    | inl room ↦
        let other : j ≢ k = λ e.
          let same : can_send (s.session j) ≡ false =
            subst (λ x. can_send (s.session x) ≡ false) (sym e) full in
          ground (arith, same) in
        subst (IsSame k s) (sym (send_up-room j p s there room)) (
          set_session-IsSame j (record (s.session j) { up = (s.session j).up ++ (p ∷ []) }) k s
            other)
  ]
]

-- A session whose receiver was taken is another one.
pub taken-other :
    (j k : ℕ) (s : Server) → (s.session j).up_taken ≡ true → (s.session k).up_taken ≡ false → j ≢ k
taken-other j k s there unread e =
    let same : (s.session k).up_taken ≡ true = subst (λ x. (s.session x).up_taken ≡ true) e there in
    cc (same, unread)

module _ (k : ℕ) (s : Server) (l : IsLocked k s) where
  pub busy : table_free s ≡ false
  busy = rw l.lock refl

  take_receivers-IsSame : (j : ℕ) → j ≢ k → IsSame k s (take_receivers j s).1
  unfolding take_receivers
  take_receivers-IsSame j other = elim (Bool-cases (s.session j).up_taken) [
    | inl gone ↦ rw gone (IsSame-refl k s)
    | inr there ↦ elim (Bool-cases (s.session j).down_taken) [
      | inl odd ↦ rw (there, odd) (set_session-IsSame j _ k s other)
      | inr even ↦ rw (there, even) (set_session-IsSame j _ k s other)
    ]
  ]

  stream_one-IsSame : IsSame k s (stream_one s).1
  unfolding stream_one
  stream_one-IsSame =
      let other : (k == s.next) ≡ false =
        ne→== k s.next (λ e. absurd (omega (arith, l.small, e))) in
      record {
        held = refl;
        session = rw other refl;
        sessions = refl;
        tasks = refl;
        next = omega arith;
      }

  dispatch-IsSame :
      (req : Request) (p : Option (Option Bytes × Option Bytes)) → IsSame k s (dispatch req p s).1
  unfolding dispatch handle_get
  dispatch-IsSame req none = IsSame-refl k s
  dispatch-IsSame req (some (id, seq_str)) =
      elim (Bool-cases (is_get req.method && is_none seq_str)) [
        | inr up ↦ rw up (IsSame-refl k s)
        | inl down ↦ elim (Option-cases id) [
          | inl alone ↦ rw down (rw alone stream_one-IsSame)
          | inr (sid, named) ↦ rw down (rw named (IsSame-refl k s))
        ]
      ]

  pub handle_request-IsSame :
      (cfg : XhttpConfig) (req : Request) → IsSame k s (handle_request cfg req s).1
  unfolding handle_request
  handle_request-IsSame cfg req = elim (Bool-cases (bad_host cfg req)) [
    | inl bad ↦ rw bad (IsSame-refl k s)
    | inr good ↦ elim (Bool-cases (is_options req.method)) [
      | inl opt ↦ rw (good, opt) (IsSame-refl k s)
      | inr other ↦
          rw (good, other) (dispatch-IsSame req (parse_path req.path (normalized_path cfg.path)))
    ]
  ]

  pub locked_at : (j : ℕ) → is_locked j s ≡ false → j ≢ k
  locked_at j free e =
      let open' : is_locked j s ≡ (k == j) = rw l.lock refl in ground (arith, open', free, e)

  pub go_on-IsSame : (x : Task) → IsSame k s (go_on x s).1
  unfolding go_on send_ready
  go_on-IsSame idle = IsSame-refl k s
  go_on-IsSame (answered r) = IsSame-refl k s
  go_on-IsSame dropped = IsSame-refl k s
  go_on-IsSame (get_table id) = rw busy (IsSame-refl k s)
  go_on-IsSame (post_table id n b) = rw busy (IsSame-refl k s)
  go_on-IsSame (get_session j) = elim (Bool-cases (is_locked j s)) [
    | inl locked ↦ rw locked (IsSame-refl k s)
    | inr free ↦ rw free (take_receivers-IsSame j (locked_at j free))
  ]
  go_on-IsSame (post_session j n b) = elim (Bool-cases (is_locked j s)) [
    | inl locked ↦ rw locked (IsSame-refl k s)
    | inr free ↦ rw free (IsSame-refl k s)
  ]
  go_on-IsSame (get_send j) = elim (Bool-cases (ready_has_room s)) [
    | inl room ↦
        rw room (record {
          held = refl;
          session = refl;
          sessions = refl;
          tasks = refl;
          next = omega arith;
        })
    | inr full ↦ rw full (IsSame-refl k s)
  ]
  go_on-IsSame (post_send j p) = elim (Bool-cases (can_send (s.session j))) [
    | inl room ↦ rw room (send_up-IsSame j p k s l.full)
    | inr full ↦ rw full (IsSame-refl k s)
  ]

  pub abandon-IsSame : (i : ℕ) (x : Task) → s.tasks i ≡ x → IsServer s → IsSame k s (abandon x s)
  unfolding abandon
  abandon-IsSame i (get_send j) at inv =
      set_session-IsSame j (record (s.session j) { closed = true }) k s
        (taken-other j k s (inv.sending_taken i j (ap sender at)) l.unread)
  abandon-IsSame i idle at inv = IsSame-refl k s
  abandon-IsSame i (get_table id) at inv = IsSame-refl k s
  abandon-IsSame i (post_table id n b) at inv = IsSame-refl k s
  abandon-IsSame i (get_session j) at inv = IsSame-refl k s
  abandon-IsSame i (post_session j n b) at inv = IsSame-refl k s
  abandon-IsSame i (post_send j p) at inv = IsSame-refl k s
  abandon-IsSame i (answered r) at inv = IsSame-refl k s
  abandon-IsSame i dropped at inv = IsSame-refl k s
