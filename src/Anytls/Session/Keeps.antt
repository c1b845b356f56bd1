-- ===== src/Anytls/Session/Keeps.antt =====
-- What every frame keeps of a session: no stream is opened before the settings, and no two streams
-- share a channel.
use ruproxy.Bytes.{Bytes}
use ruproxy.Prelude.{
  ℕ, ◌+◌, ◌<◌, ◌≡◌, refl, sym, ap, ◌∙◌, subst, Bool, true, false, some, [], ◌==◌, if◌then◌else◌,
  arith, inl, inr, Bool-cases, ==_iff, Option-cases,
}
use ruproxy.Anytls.Session.{
  State, Frame, Scheme, Flow, go, stop, new, send, deliver, deliver_or, handle_settings,
  open_stream, handle_syn, handle_psh, handle_fin, handle_frame, Channel, no_settings,
}
use ruproxy.Map.{Map, lookup, insert, remove, nat_eq, lookup-remove, lookup-insert}

pub record IsSession (s : State) : Type 0 where
  pub quiet : s.received_settings ≡ false → s.next ≡ 0
  pub below : (sid ch : ℕ) → lookup sid s.streams ≡ some ch → ch < s.next
  pub apart :
      (sid sid' ch : ℕ)
      → lookup sid s.streams ≡ some ch
      → lookup sid' s.streams ≡ some ch
      → sid ≡ sid'

-- `t` has no stream that `s` has not.
pub record Shrinks (s t : State) : Type 0 where
  pub kept : (sid ch : ℕ) → lookup sid t.streams ≡ some ch → lookup sid s.streams ≡ some ch
  pub same_next : t.next ≡ s.next
  pub settings : t.received_settings ≡ false → s.received_settings ≡ false

pub Shrinks-IsSession : {s t : State} → Shrinks s t → IsSession s → IsSession t
Shrinks-IsSession h i = record {
  quiet = λ e. h.same_next ∙ i.quiet (h.settings e);
  below = λ sid ch e. subst (λ n. ch < n) (sym h.same_next) (i.below sid ch (h.kept sid ch e));
  apart = λ sid sid' ch e f. i.apart sid sid' ch (h.kept sid ch e) (h.kept sid' ch f);
}

-- A state that differs in nothing but what was sent.
same_streams :
    {s t : State}
    → t.streams ≡ s.streams
    → t.next ≡ s.next
    → (t.received_settings ≡ false → s.received_settings ≡ false)
    → Shrinks s t
same_streams {s} e n r = record {
  kept = λ sid ch f. subst (λ m. lookup sid m ≡ some ch) e f;
  same_next = n;
  settings = r;
}

pub some_inj : {s t : State} → some s ≡ some t → s ≡ t
some_inj h = cc

pub deliver-streams :
    (ch : ℕ) (d : Bytes) (s : State) {t : State}
    → deliver ch d s ≡ some t
    → (t.streams ≡ s.streams) × (t.next ≡ s.next) × (t.received_settings ≡ s.received_settings)
unfolding deliver
deliver-streams ch d s {t} h = elim (Option-cases (lookup ch s.channels)) [
  | inl absent ↦ cc (rw (absent, deliver) at h)
  | inr (c, e) ↦ elim (Bool-cases c.gone) [
    | inl dropped ↦ cc (rw dropped at (rw (e, deliver) at h))
    | inr there ↦
        let same = rw there at (rw (e, deliver) at h) in
        (
          ap State.streams (sym (some_inj same)),
          ap State.next (sym (some_inj same)),
          ap State.received_settings (sym (some_inj same)),
        )
  ]
]

removed : (sid : ℕ) (s : State) → Shrinks s (record s { streams = remove sid s.streams })
removed sid s = record {
  kept = λ j ch e. ground (arith, lookup-remove sid j s.streams);
  same_next = refl;
  settings = λ e. e;
}

handle_settings-Shrinks :
    (scheme : Scheme) (d : Bytes) (s : State) → Shrinks s (handle_settings scheme d s)
unfolding handle_settings
handle_settings-Shrinks scheme d s =
    same_streams (ground arith) (ground arith) (λ e. absurd (ground arith))

open_stream-parts :
    (sid : ℕ) (s : State)
    → ((open_stream sid s).streams ≡ insert sid s.next s.streams)
      × ((open_stream sid s).next ≡ s.next + 1)
      × ((open_stream sid s).received_settings ≡ s.received_settings)
unfolding open_stream
open_stream-parts sid s = ground arith

open_stream-IsSession :
    (sid : ℕ) (s : State) → s.received_settings ≡ true → IsSession s → IsSession (open_stream sid s)
open_stream-IsSession sid s got i =
    let (streams, next, settings) = open_stream-parts sid s in
    record {
      quiet = λ e. absurd (ground arith);
      below = λ j ch e.
          ground (arith, lookup-insert sid j s.next s.streams, i.below j ch, ==_iff sid j);
      apart = λ j k ch e f. ground (
        arith,
        lookup-insert sid j s.next s.streams,
        lookup-insert sid k s.next s.streams,
        i.below j ch,
        i.below k ch,
        i.apart j k ch,
        ==_iff sid j,
        ==_iff sid k,
      );
    }

Shrinks-trans : {s t u : State} → Shrinks s t → Shrinks t u → Shrinks s u
Shrinks-trans a b = record {
  kept = λ j ch e. a.kept j ch (b.kept j ch e);
  same_next = b.same_next ∙ a.same_next;
  settings = λ e. a.settings (b.settings e);
}

deliver_or-Shrinks :
    (otherwise : State → State) (ch : ℕ) (d : Bytes) (s : State)
    → Shrinks s (otherwise s)
    → Shrinks s (deliver_or otherwise ch d s)
deliver_or-Shrinks otherwise ch d s h = elim (Option-cases (deliver ch d s)) [
  | inl lost ↦ rw (lost, deliver_or) h
  | inr (t, e) ↦
      let (streams, next, settings) = deliver-streams ch d s e in
      rw (e, deliver_or) (same_streams streams next (λ f. sym settings ∙ f))
]

pub handle_psh-Shrinks : (sid : ℕ) (d : Bytes) (s : State) → Shrinks s (handle_psh sid d s)
unfolding handle_psh
handle_psh-Shrinks sid d s = elim (Option-cases (lookup sid s.streams)) [
  | inl unknown ↦ rw (unknown, handle_psh) (same_streams refl refl (λ e. e))
  | inr (ch, e) ↦
      rw (e, handle_psh)
        (deliver_or-Shrinks (λ (t : State). record t { streams = remove sid t.streams }) ch d s
          (removed sid s))
]

handle_fin-Shrinks : (sid : ℕ) (s : State) → Shrinks s (handle_fin sid s)
unfolding handle_fin
handle_fin-Shrinks sid s = elim (Option-cases (lookup sid s.streams)) [
  | inl unknown ↦ rw (unknown, handle_fin) (same_streams refl refl (λ e. e))
  | inr (ch, e) ↦
      rw (e, handle_fin)
        (Shrinks-trans (removed sid s) (
          deliver_or-Shrinks (λ t. t) ch [] (record s { streams = remove sid s.streams })
            (same_streams refl refl (λ e. e))))
]

abbrev pub state_of : Flow → State
state_of (go s) = s
state_of (stop s) = s

syn_keeps :
    (sid : ℕ) (s : State) (b : Bool)
    → b ≡ s.received_settings
    → IsSession s
    → IsSession (state_of (if b then go (open_stream sid s) else stop (send 5 0 no_settings s)))
syn_keeps sid s true e i = open_stream-IsSession sid s (sym e) i
syn_keeps sid s false e i = Shrinks-IsSession (same_streams refl refl (λ f. f)) i

if_keeps :
    (b : Bool) (x y : Flow)
    → IsSession (state_of x)
    → IsSession (state_of y)
    → IsSession (state_of (if b then x else y))
if_keeps true x y h k = h
if_keeps false x y h k = k

pub handle_frame-IsSession :
    (scheme : Scheme) (f : Frame) (s : State)
    → IsSession s
    → IsSession (state_of (handle_frame scheme f s))
unfolding handle_frame handle_syn
handle_frame-IsSession scheme f s i =
    let sent : IsSession (send 9 f.sid [] s) =
      Shrinks-IsSession (same_streams refl refl (λ e. e)) i in
    if_keeps (f.cmd == 4) _ _ (Shrinks-IsSession (handle_settings-Shrinks scheme f.data' s) i) (
      if_keeps (f.cmd == 1) _ _ (syn_keeps f.sid s s.received_settings refl i) (
        if_keeps (f.cmd == 2) _ _ (Shrinks-IsSession (handle_psh-Shrinks f.sid f.data' s) i) (
          if_keeps (f.cmd == 3) _ _ (Shrinks-IsSession (handle_fin-Shrinks f.sid s) i)
            (if_keeps (f.cmd == 8) _ _ sent (if_keeps (f.cmd == 5) _ _ i i)))))

-- The states of a session: a frame comes, or the readers of the streams do something to the channels.
pub data Reach (scheme : Scheme) : State → Type 0 where
  start : Reach scheme new
  frame :
      {s : State} (f : Frame) → Reach scheme s → Reach scheme (state_of (handle_frame scheme f s))
  readers :
      {s : State} (channels : Map ℕ Channel)
      → Reach scheme s
      → Reach scheme (record s { channels = channels })

-- In every reachable state of a session, no stream has been opened if no settings came, and no two
-- open streams share a channel.
pub Reach-IsSession : (scheme : Scheme) {s : State} → Reach scheme s → IsSession s
unfolding lookup
Reach-IsSession scheme start = record {
  quiet = λ e. refl;
  below = λ sid ch e. cc;
  apart = λ j k ch e f. cc;
}
Reach-IsSession scheme (frame {s = s} f r) =
    handle_frame-IsSession scheme f s (Reach-IsSession scheme r)
Reach-IsSession scheme (readers {s = s} channels r) =
    let i = Reach-IsSession scheme r in record { quiet = i.quiet; below = i.below; apart = i.apart }
