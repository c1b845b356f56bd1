-- ===== src/Xhttp/Server/Table.antt =====
-- What the changes of the table and of the channels of src/common/transport/xhttp.rs keep.
use ruproxy.Xhttp.Stream.{UploadPacket, finish}
use ruproxy.Bytes.{Bytes, bytes_eq}
use ruproxy.Prelude.{
  ℕ, ◌<◌, ◌≡◌, refl, sym, ap, ◌∙◌, subst, true, false, Option, some, List, [], ◌∷◌, ◌++◌, arith,
  inl, inr, Bool-cases, Option-cases,
}
use ruproxy.Map.{bytes_key, lookup, remove, lookup-remove, lookup-insert}
use ruproxy.Xhttp.Server.{
  Server, set_session, has_room, can_send, send_up, get_or_create_session, add_session,
}
use ruproxy.Xhttp.Server.Moves.{expire}
use ruproxy.Xhttp.Server.Keeps.{IsServer, still-IsServer}

pub some_inj : {a b : ℕ} → some a ≡ some b → a ≡ b
some_inj h = cc

-- A session that is new in the table.
add_session-IsServer : (id : Bytes) (s : Server) → IsServer s → IsServer (add_session id s)
add_session-IsServer id s inv =
    let untaken : (s.session s.next).up_taken ≡ false = ground (arith, inv.small s.next) in
    let open' : (s.session s.next).closed ≡ false = ground (arith, inv.closed s.next) in
    let at : (k : ℕ)
        → k ≡ s.next
        → ((s.session k).up_taken ≡ false) × ((s.session k).closed ≡ false) =
      λ k e.
        subst (λ x. ((s.session x).up_taken ≡ false) × ((s.session x).closed ≡ false)) (sym e)
          (untaken, open') in
    still-IsServer s (add_session id s)
      (record {
        ready = refl;
        up_taken = λ k. ground (arith, at k);
        down_taken = λ k. ground (arith, at k, inv.both k);
        closed = λ k. ground (arith, at k);
        senders = λ i. refl;
        next = omega arith;
        entries = λ j k found. elim (Bool-cases (bytes_eq id j)) [
          | inl here ↦
              let same : s.next ≡ k =
                some_inj (sym (lookup-insert id j s.next s.sessions ∙ rw here refl) ∙ found) in
              omega arith
          | inr elsewhere ↦
              let small =
                inv.entries j k
                  (sym (lookup-insert id j s.next s.sessions ∙ rw elsewhere refl) ∙ found) in
              omega arith
        ];
        asked = λ i k h. omega (arith, inv.asked i k h);
        received = inv.received;
        bounded = inv.bounded;
      })
      inv

pub record HasEntry (id : Bytes) (s : Server) : Type 0 where
  pub server : IsServer (get_or_create_session id s).1
  pub small : (get_or_create_session id s).0 < (get_or_create_session id s).1.next
  pub tasks : (get_or_create_session id s).1.tasks ≡ s.tasks

pub get_or_create_session-HasEntry : (id : Bytes) (s : Server) → IsServer s → HasEntry id s
unfolding get_or_create_session
get_or_create_session-HasEntry id s inv = elim (Option-cases (lookup id s.sessions)) [
  | inl missing ↦ record {
    server = rw (missing, get_or_create_session) (add_session-IsServer id s inv);
    small = rw (missing, get_or_create_session) (omega arith);
    tasks = rw (missing, get_or_create_session) refl;
  }
  | inr (k, found) ↦ record {
    server = rw (found, get_or_create_session) inv;
    small = rw (found, get_or_create_session) (inv.entries id k found);
    tasks = rw (found, get_or_create_session) refl;
  }
]

-- Only the packets in the channel of a session change.
pub up-IsServer :
    (k : ℕ) (up : List UploadPacket) (s : Server)
    → IsServer s
    → IsServer (set_session k (record (s.session k) { up = up }) s)
up-IsServer k up s inv =
    let back : (j : ℕ) → j ≡ k → s.session j ≡ s.session k = λ j e. ap (λ x. s.session x) e in
    let up_back : (j : ℕ) → j ≡ k → (s.session j).up_taken ≡ (s.session k).up_taken =
      λ j e. ap (λ x. (s.session x).up_taken) e in
    let down_back : (j : ℕ) → j ≡ k → (s.session j).down_taken ≡ (s.session k).down_taken =
      λ j e. ap (λ x. (s.session x).down_taken) e in
    let closed_back : (j : ℕ) → j ≡ k → (s.session j).closed ≡ (s.session k).closed =
      λ j e. ap (λ x. (s.session x).closed) e in
    still-IsServer s (set_session k (record (s.session k) { up = up }) s)
      (record {
        ready = refl;
        up_taken = λ j. ground (arith, up_back j);
        down_taken = λ j. ground (arith, down_back j);
        closed = λ j. ground (arith, closed_back j);
        senders = λ i. refl;
        next = omega arith;
        entries = inv.entries;
        asked = inv.asked;
        received = inv.received;
        bounded = inv.bounded;
      })
      inv

pub send_up-room :
    (k : ℕ) (p : UploadPacket) (s : Server)
    → (s.session k).closed ≡ false
    → has_room (s.session k) ≡ true
    → send_up k p s ≡ set_session k (record (s.session k) { up = (s.session k).up ++ (p ∷ []) }) s
send_up-room k p s there room = rw (there, room) refl

pub send_up-IsServer :
    (k : ℕ) (p : UploadPacket) (s : Server) → IsServer s → IsServer (send_up k p s)
send_up-IsServer k p s inv = elim (Bool-cases (s.session k).closed) [
  | inl gone ↦ rw gone inv
  | inr there ↦ elim (Bool-cases (has_room (s.session k))) [
    | inl room ↦
        subst IsServer (sym (send_up-room k p s there room))
          (up-IsServer k ((s.session k).up ++ (p ∷ [])) s inv)
    | inr full ↦ rw (there, full) inv
  ]
]

pub send_up-tasks : (k : ℕ) (p : UploadPacket) (s : Server) → (send_up k p s).tasks ≡ s.tasks
send_up-tasks k p s = elim (Bool-cases (s.session k).closed) [
  | inl gone ↦ rw gone refl
  | inr there ↦ elim (Bool-cases (has_room (s.session k))) [
    | inl room ↦ ap (λ t. t.tasks) (send_up-room k p s there room)
    | inr full ↦ rw (there, full) refl
  ]
]

-- The entries may become fewer, the lock of the table move, and `accept` receive a stream.
pub table-IsServer :
    (id : Bytes) (held : Option ℕ) (s : Server)
    → IsServer s
    → IsServer (record s { sessions = remove id s.sessions; held = held })
table-IsServer id held s inv =
    still-IsServer s (record s { sessions = remove id s.sessions; held = held })
      (record {
        ready = refl;
        up_taken = λ j. refl;
        down_taken = λ j. refl;
        closed = λ j. refl;
        senders = λ i. refl;
        next = omega arith;
        entries =
            λ j k found. inv.entries j k (ground (arith, found, lookup-remove id j s.sessions));
        asked = inv.asked;
        received = inv.received;
        bounded = inv.bounded;
      })
      inv

pub expire-IsServer : (id : Bytes) (s : Server) → IsServer s → IsServer (expire id s)
unfolding expire
expire-IsServer id s inv = elim (Option-cases (lookup id s.sessions)) [
  | inl missing ↦ rw (missing, expire) inv
  | inr (k, found) ↦ elim (Bool-cases (can_send (s.session k))) [
    | inl room ↦
        rw (found, expire)
          (rw room (
            send_up-IsServer k finish (record s { sessions = remove id s.sessions })
              (table-IsServer id s.held s inv)))
    | inr full ↦ rw (found, expire) (rw full (table-IsServer id (some k) s inv))
  ]
]
