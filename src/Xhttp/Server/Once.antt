-- ===== src/Xhttp/Server/Once.antt =====
-- The session table of src/common/transport/xhttp.rs hands each session out once.
use ruproxy.Xhttp.Path.{XhttpConfig}
use ruproxy.Xhttp.Stream.{finish}
use ruproxy.Ids.{mem}
use ruproxy.Prelude.{
  ℕ, zero, suc, ◌+◌, ◌-◌, ◌<◌, ◌≡◌, refl, ap, true, none, List, [], ◌∷◌, drop, length, arith,
}
use ruproxy.Map.{bytes_key, lookup}
use ruproxy.Xhttp.Server.{
  Server, Task, idle, get_table, post_table, get_session, post_session, get_send, post_send,
  answered, dropped, set_task, send_up, new_server,
}
use ruproxy.Xhttp.Server.Moves.{
  abandon, given, Step, Reach, request, resume, cancel, accept, late, old, forward, taken, hang_up,
  release, start, after,
}
use ruproxy.Xhttp.Server.Keeps.{IsServer, sender, still-IsServer}
use ruproxy.Xhttp.Server.Hands.{drop-IsServer, close-IsServer}
use ruproxy.Xhttp.Server.Table.{table-IsServer, expire-IsServer, send_up-IsServer, up-IsServer}
use ruproxy.Xhttp.Server.Handlers.{stay, handle_request-IsServer, go_on-IsServer}

abandon-IsServer :
    (i : ℕ) (x : Task) (s : Server)
    → s.tasks i ≡ x
    → IsServer s
    → IsServer (set_task i dropped (abandon x s))
unfolding abandon
abandon-IsServer i (get_send k) s at inv = drop-IsServer i k dropped s (ap sender at) refl refl inv
abandon-IsServer i idle s at inv = stay i dropped s (ap sender at) refl refl inv
abandon-IsServer i (get_table id) s at inv = stay i dropped s (ap sender at) refl refl inv
abandon-IsServer i (post_table id n b) s at inv = stay i dropped s (ap sender at) refl refl inv
abandon-IsServer i (get_session k) s at inv = stay i dropped s (ap sender at) refl refl inv
abandon-IsServer i (post_session k n b) s at inv = stay i dropped s (ap sender at) refl refl inv
abandon-IsServer i (post_send k p) s at inv = stay i dropped s (ap sender at) refl refl inv
abandon-IsServer i (answered r) s at inv = stay i dropped s (ap sender at) refl refl inv
abandon-IsServer i dropped s at inv = stay i dropped s (ap sender at) refl refl inv

mem-drop : (n : ℕ) (ks : List ℕ) (k : ℕ) → mem (drop n ks) k ≡ true → mem ks k ≡ true
mem-drop zero ks k h = h
mem-drop (suc n) [] k h = h
mem-drop (suc n) (j ∷ ks) k h = ground (arith, mem-drop n ks k h)

-- What `accept` gave out was sent to it.
pub given-mem : (s : Server) (k : ℕ) → mem (given s) k ≡ true → mem s.ready k ≡ true
given-mem s k h = mem-drop (length s.ready - s.accepted) s.ready k h

-- The lock is given back, or `accept` receives a stream.
unlock-IsServer : (s : Server) → IsServer s → IsServer (record s { held = none })
unlock-IsServer s inv =
    still-IsServer s (record s { held = none })
      (record {
        ready = refl;
        up_taken = λ j. refl;
        down_taken = λ j. refl;
        closed = λ j. refl;
        senders = λ i. refl;
        next = omega arith;
        entries = inv.entries;
        asked = inv.asked;
        received = inv.received;
        bounded = inv.bounded;
      })
      inv

accept-IsServer :
    (s : Server)
    → s.accepted < length s.ready
    → IsServer s
    → IsServer (record s { accepted = s.accepted + 1 })
accept-IsServer s some_left inv =
    still-IsServer s (record s { accepted = s.accepted + 1 })
      (record {
        ready = refl;
        up_taken = λ j. refl;
        down_taken = λ j. refl;
        closed = λ j. refl;
        senders = λ i. refl;
        next = omega arith;
        entries = inv.entries;
        asked = inv.asked;
        received = omega arith;
        bounded = omega (arith, inv.bounded);
      })
      inv

pub Step-IsServer : {cfg : XhttpConfig} {s t : Server} → Step cfg s t → IsServer s → IsServer t
Step-IsServer {cfg = cfg} (request i req s at) inv =
    handle_request-IsServer cfg i req s (ap sender at) inv
Step-IsServer (resume i s) inv = go_on-IsServer i (s.tasks i) s refl inv
Step-IsServer (cancel i s waits) inv = abandon-IsServer i (s.tasks i) s refl inv
Step-IsServer (accept s some_left) inv = accept-IsServer s some_left inv
Step-IsServer (late id s free) inv = expire-IsServer id s inv
Step-IsServer (old id s free) inv = table-IsServer id s.held s inv
Step-IsServer (forward k p s) inv = send_up-IsServer k p s inv
Step-IsServer (taken k s mine) inv = up-IsServer k (drop 1 (s.session k).up) s inv
Step-IsServer (hang_up k s mine) inv = close-IsServer k s (given-mem s k mine) inv
Step-IsServer (release k s mine room) inv =
    unlock-IsServer (send_up k finish s) (send_up-IsServer k finish s inv)

pub keeps : {cfg : XhttpConfig} {s t : Server} → Reach cfg s t → IsServer s → IsServer t
keeps start inv = inv
keeps (after reached step) inv = Step-IsServer step (keeps reached inv)

-- In every reachable state of the server, however the waits of the handlers, the ends of their
-- connections, timeouts, `accept` and the readers of the streams interleave: no session was sent to
-- `accept` twice, at most 64 sent ones are not received yet, and what was sent had its receivers
-- taken, both together; a session whose receivers were taken was sent, or is about to be sent by
-- one handler, which is the only one and finds it open and not yet sent, or has its stream dropped;
-- and every entry of the table leads to a session that exists.
pub Reach-IsServer : {cfg : XhttpConfig} {s : Server} → Reach cfg new_server s → IsServer s
unfolding lookup
Reach-IsServer reached = keeps reached (record {
  once = tt;
  sent = λ k h. cc;
  sending_taken = λ i k h. cc;
  sending_unsent = λ i k h. refl;
  sending_open = λ i k h. refl;
  alone = λ i j k h g. cc;
  kept = λ k h. absurd (cc h);
  closed = λ k h. cc;
  both = λ k. refl;
  small = λ k h. cc;
  entries = λ id k found. cc;
  asked = λ i k h. cc;
  received = omega arith;
  bounded = omega arith;
})
