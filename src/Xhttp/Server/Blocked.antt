-- ===== src/Xhttp/Server/Blocked.antt =====
-- What a step of src/common/transport/xhttp.rs leaves as it is while the task of a session holds the
-- lock of the table.
use ruproxy.Xhttp.Path.{XhttpConfig}
use ruproxy.Prelude.{
  ℕ, ◌≤◌, ◌≡◌, refl, sym, ap, ◌∙◌, subst, Bool, true, false, none, ◌==◌, drop, arith, ◌⊎◌, inl, inr,
  Bool-cases, ==_iff,
}
use ruproxy.Map.{bytes_key}
use ruproxy.Xhttp.Server.{
  Server, Task, idle, get_table, post_table, get_session, post_session, get_send, post_send,
  answered, dropped, is_locked, can_send,
}
use ruproxy.Xhttp.Server.Moves.{
  go_on, abandon, moved, Step, request, resume, cancel, accept, late, old, forward, taken, hang_up,
  release,
}
use ruproxy.Xhttp.Server.Keeps.{IsServer}
use ruproxy.Xhttp.Server.Once.{given-mem}
use ruproxy.Xhttp.Server.Waits.{
  IsLocked, IsSame, set_session-IsSame, send_up-IsSame, taken-other, busy, handle_request-IsSame,
  go_on-IsSame, abandon-IsSame,
}

-- A handler that waits for the lock of the table, for that of session `k` or for its channel.
abbrev pub is_stuck : ℕ → Task → Bool
is_stuck k (get_table id) = true
is_stuck k (post_table id seq_str body) = true
is_stuck k (get_session j) = j == k
is_stuck k (post_session j seq_str body) = j == k
is_stuck k (post_send j p) = j == k
is_stuck k _ = false

-- It is as it was, or its connection was closed.
abbrev pub Waits : Task → Task → Type 0
Waits x y = (y ≡ x) ⊎ (y ≡ dropped)

abbrev pub is_over : ℕ → Task → Bool
is_over k dropped = true
is_over k x = is_stuck k x

-- What a step leaves as it is.
pub record IsHeld (k : ℕ) (s t : Server) : Type 0 where
  pub held : t.held ≡ s.held
  pub session : t.session k ≡ s.session k
  pub sessions : t.sessions ≡ s.sessions
  pub next : s.next ≤ t.next
  pub waits : (i : ℕ) → is_over k (s.tasks i) ≡ true → Waits (s.tasks i) (t.tasks i)

IsSame-IsHeld : (k : ℕ) (s t : Server) → IsSame k s t → IsHeld k s t
IsSame-IsHeld k s t same = record {
  held = same.held;
  session = same.session;
  sessions = same.sessions;
  next = same.next;
  waits = λ i h. inl (ap (λ x. x i) same.tasks);
}

-- One handler moves.
moved-IsHeld :
    (k i : ℕ) (s : Server) (r : Task × Server)
    → IsSame k s r.1
    → (is_over k (s.tasks i) ≡ true → Waits (s.tasks i) r.0)
    → IsHeld k s (moved i r)
moved-IsHeld k i s r same waits = record {
  held = same.held;
  session = same.session;
  sessions = same.sessions;
  next = same.next;
  waits = λ j h. elim (Bool-cases (j == i)) [
    | inr other ↦ rw other (inl (ap (λ x. x j) same.tasks))
    | inl here ↦
        let e : i ≡ j = sym ((==_iff j i).0 here) in
        rw here (
          subst (λ x. Waits (s.tasks x) r.0) e
            (waits (subst (λ x. is_over k (s.tasks x) ≡ true) (sym e) h)))
  ];
}

module _ (k : ℕ) (s : Server) (l : IsLocked k s) where
  still_locked : (j : ℕ) → (j == k) ≡ true → is_locked j s ≡ true
  still_locked j here = let e : is_locked j s ≡ (k == j) = rw l.lock refl in ground (arith, e, here)

  -- A handler that waits for the locks or the channel cannot go on.
  go_on-stuck : (x : Task) → is_over k x ≡ true → (go_on x s).0 ≡ x
  unfolding go_on
  go_on-stuck dropped h = refl
  go_on-stuck idle h = refl
  go_on-stuck (answered r) h = refl
  go_on-stuck (get_table id) h = rw (busy k s l) refl
  go_on-stuck (post_table id n b) h = rw (busy k s l) refl
  go_on-stuck (get_session j) h = rw (still_locked j h) refl
  go_on-stuck (post_session j n b) h = rw (still_locked j h) refl
  go_on-stuck (get_send j) h = cc
  go_on-stuck (post_send j p) h =
      let full : can_send (s.session j) ≡ false =
        subst (λ x. can_send (s.session x) ≡ false) (sym ((==_iff j k).0 h)) l.full in
      rw full refl

  no_lock : {A : Type 0} → s.held ≡ none → A
  no_lock h = cc (l.lock, h)

pub IsHeld-IsLocked : (k : ℕ) (s t : Server) → IsHeld k s t → IsLocked k s → IsLocked k t
IsHeld-IsLocked k s t h l = record {
  lock = h.held ∙ l.lock;
  unread = ap (λ v. v.up_taken) h.session ∙ l.unread;
  full = ap can_send h.session ∙ l.full;
  small = omega (arith, l.small, h.next);
}

pub Step-IsHeld :
    {cfg : XhttpConfig} {k : ℕ} {s t : Server}
    → Step cfg s t
    → IsServer s
    → IsLocked k s
    → IsHeld k s t
Step-IsHeld {cfg = cfg} {k = k} (request i req s at) inv l =
    moved-IsHeld k i s _ (handle_request-IsSame k s l cfg req)
      (λ h. absurd (cc (h, ap (is_over k) at)))
Step-IsHeld {k = k} (resume i s) inv l =
    moved-IsHeld k i s (go_on (s.tasks i) s) (go_on-IsSame k s l (s.tasks i))
      (λ h. inl (go_on-stuck k s l (s.tasks i) h))
Step-IsHeld {k = k} (cancel i s waits) inv l =
    moved-IsHeld k i s (dropped, abandon (s.tasks i) s)
      (abandon-IsSame k s l i (s.tasks i) refl inv) (λ h. inr refl)
Step-IsHeld (accept s some_left) inv l = record {
  held = refl;
  session = refl;
  sessions = refl;
  next = omega arith;
  waits = λ i h. inl refl;
}
Step-IsHeld {k = k} (late id s free) inv l = no_lock k s l free
Step-IsHeld {k = k} (old id s free) inv l = no_lock k s l free
Step-IsHeld {k = k} (forward j p s) inv l = IsSame-IsHeld k s _ (send_up-IsSame j p k s l.full)
Step-IsHeld {k = k} (taken j s mine) inv l = IsSame-IsHeld k s _ (
    set_session-IsSame j (record (s.session j) { up = drop 1 (s.session j).up }) k s
      (taken-other j k s (inv.sent j (given-mem s j mine)) l.unread))
Step-IsHeld {k = k} (hang_up j s mine) inv l = IsSame-IsHeld k s _ (
    set_session-IsSame j (record (s.session j) { closed = true }) k s
      (taken-other j k s (inv.sent j (given-mem s j mine)) l.unread))
Step-IsHeld {k = k} (release j s h room) inv l =
    let same : j ≡ k = cc (h, l.lock) in
    let yes_room : can_send (s.session k) ≡ true =
      subst (λ x. can_send (s.session x) ≡ true) same room in
    absurd (cc (l.full, yes_room))
