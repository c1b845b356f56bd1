-- ===== src/Xhttp/Server/Locked.antt =====
-- A session of src/common/transport/xhttp.rs that expires with a full channel.
use ruproxy.Bytes.{Bytes}
use ruproxy.Xhttp.Path.{XhttpConfig}
use ruproxy.Ids.{mem}
use ruproxy.Prelude.{
  ℕ, ◌≤◌, ◌≡◌, refl, sym, ap, ◌∙◌, subst, true, false, none, some, length, arith, inl, inr, le→ltb,
}
use ruproxy.Map.{bytes_key, lookup, remove}
use ruproxy.Xhttp.Server.{
  Server, Task, idle, get_table, post_table, get_session, post_session, get_send, post_send,
  answered, dropped, has_room, can_send, new_server,
}
use ruproxy.Xhttp.Server.Moves.{expire, Reach, late, start, after}
use ruproxy.Xhttp.Server.Keeps.{IsServer}
use ruproxy.Xhttp.Server.Once.{keeps, Reach-IsServer}
use ruproxy.Xhttp.Server.Waits.{IsLocked}
use ruproxy.Xhttp.Server.Blocked.{is_stuck, Waits, is_over, IsHeld, Step-IsHeld, IsHeld-IsLocked}

then_waits :
    (k : ℕ) (x y z : Task)
    → is_over k x ≡ true
    → Waits x y
    → (is_over k y ≡ true → Waits y z)
    → Waits x z
then_waits k x y z h (inl same) on = elim (on (ap (is_over k) same ∙ h)) [
  | inl again ↦ inl (again ∙ same)
  | inr gone ↦ inr gone
]
then_waits k x y z h (inr gone) on = elim (on (ap (is_over k) gone)) [
  | inl again ↦ inr (again ∙ gone)
  | inr over ↦ inr over
]

Reach-IsHeld :
    {cfg : XhttpConfig} {k : ℕ} {s t : Server}
    → Reach cfg s t
    → IsServer s
    → IsLocked k s
    → IsHeld k s t
Reach-IsHeld start inv l = record {
  held = refl;
  session = refl;
  sessions = refl;
  next = omega arith;
  waits = λ i h. inl refl;
}
Reach-IsHeld {k = k} (after {s = s} {t = t} {u = u} reached step) inv l =
    let before = Reach-IsHeld reached inv l in
    let here = IsHeld-IsLocked k s t before l in
    let then_held = Step-IsHeld step (keeps reached inv) here in
    record {
      held = then_held.held ∙ before.held;
      session = then_held.session ∙ before.session;
      sessions = then_held.sessions ∙ before.sessions;
      next = omega (arith, before.next, then_held.next);
      waits = λ i h.
          then_waits k (s.tasks i) (t.tasks i) (u.tasks i) h (before.waits i h) (then_held.waits i);
    }

-- A session without room expires: its task takes it out of the table and keeps the locks.
pub expire-full :
    (id : Bytes) (k : ℕ) (s : Server)
    → lookup id s.sessions ≡ some k
    → can_send (s.session k) ≡ false
    → expire id s ≡ record s { sessions = remove id s.sessions; held = some k }
unfolding expire
expire-full id k s found full = rw (found, expire) (rw full refl)

pub is_stuck-over : (k : ℕ) (x : Task) → is_stuck k x ≡ true → is_over k x ≡ true
is_stuck-over k idle h = h
is_stuck-over k (get_table id) h = h
is_stuck-over k (post_table id n b) h = h
is_stuck-over k (get_session j) h = h
is_stuck-over k (post_session j n b) h = h
is_stuck-over k (get_send j) h = h
is_stuck-over k (post_send j p) h = h
is_stuck-over k (answered r) h = h
is_stuck-over k dropped h = refl

-- Let a session of the table expire in a reachable state in which the lock of the table is free, the
-- session's channel holds 64 packets and nobody took its receiver. In every state that is reached from there its task still holds the lock
-- of the table, the table is what it was without the session, and the session was never sent to
-- `accept`; and a handler that ever waits there for that lock, for the lock of the session or for
-- its channel never goes on: it waits in the same place in every later state, until its connection
-- is closed.
pub expire-IsLocked :
    {cfg : XhttpConfig} (id : Bytes) (k i : ℕ) {s t u : Server}
    → Reach cfg new_server s
    → s.held ≡ none
    → lookup id s.sessions ≡ some k
    → (s.session k).up_taken ≡ false
    → 64 ≤ length (s.session k).up
    → Reach cfg (expire id s) t
    → is_stuck k (t.tasks i) ≡ true
    → Reach cfg t u
    → (u.held ≡ some k)
      × (u.sessions ≡ remove id s.sessions)
      × (mem u.ready k ≡ false)
      × Waits (t.tasks i) (u.tasks i)
expire-IsLocked {cfg = cfg} id k i {s} {t} {u} before free found unread many reached stuck later =
    let inv = Reach-IsServer before in
    let no_room : has_room (s.session k) ≡ false = le→ltb (length (s.session k).up) 64 many in
    let open' : (s.session k).closed ≡ false = ground (arith, inv.closed k) in
    let full : can_send (s.session k) ≡ false = rw (open', no_room) refl in
    let e = expire-full id k s found full in
    let l1 : IsLocked k (expire id s) =
      subst (IsLocked k) (sym e)
        (record { lock = refl; unread = unread; full = full; small = inv.entries id k found }) in
    let inv1 = Reach-IsServer (after before (late id s free)) in
    let first = Reach-IsHeld reached inv1 l1 in
    let l2 = IsHeld-IsLocked k (expire id s) t first l1 in
    let second = Reach-IsHeld later (keeps reached inv1) l2 in
    let l3 = IsHeld-IsLocked k t u second l2 in
    let inv3 = keeps later (keeps reached inv1) in
    (
      l3.lock,
      second.sessions ∙ first.sessions ∙ ap (λ x. x.sessions) e,
      ground (arith, inv3.sent k, l3.unread),
      second.waits i (is_stuck-over k (t.tasks i) stuck),
    )
