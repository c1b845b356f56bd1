-- ===== src/Xhttp/Server/Handlers.antt =====
-- What the handlers of src/common/transport/xhttp.rs keep, from one of their waits to the next.
use ruproxy.Text.{parse_unsigned}
use ruproxy.Xhttp.Path.{XhttpConfig, parse_path, normalized_path}
use ruproxy.Bytes.{Bytes}
use ruproxy.Prelude.{
  ℕ, ◌+◌, ◌^◌, ◌<◌, ◌≡◌, refl, sym, ap, ◌∙◌, ◌&&◌, true, false, Option, none, some, arith, inl, inr,
  Bool-cases, Option-cases, ltb→lt,
}
use ruproxy.Map.{bytes_key}
use ruproxy.Io.{Result-cases}
use ruproxy.Xhttp.Server.{
  Server, Task, Request, idle, get_table, post_table, get_session, post_session, get_send,
  post_send, answered, dropped, plain, ok_status, set_task, table_free, is_locked, can_send,
  send_up, get_or_create_session, take_receivers, send_ready, post_to, handle_request, handle_get,
  handle_post, dispatch, stream_one, new_session, bad_host, is_get, is_options, is_none, conflict,
  not_found, ready_has_room,
}
use ruproxy.Xhttp.Server.Moves.{go_on, moved}
use ruproxy.Xhttp.Server.Keeps.{IsServer, sender, asker, set_task-IsServer}
use ruproxy.Xhttp.Server.Hands.{take-IsServer, send-IsServer}
use ruproxy.Xhttp.Server.Table.{
  some_inj, get_or_create_session-HasEntry, send_up-tasks, send_up-IsServer,
}

-- A handler stays without a stream, and asks for no session.
pub stay :
    (i : ℕ) (x : Task) (s : Server)
    → sender (s.tasks i) ≡ none
    → sender x ≡ none
    → asker x ≡ none
    → IsServer s
    → IsServer (set_task i x s)
stay i x s was without unasked inv =
    set_task-IsServer i x s (without ∙ sym was) (λ k h. cc (unasked, h)) inv

stream_one-IsServer :
    (i : ℕ) (s : Server)
    → sender (s.tasks i) ≡ none
    → IsServer s
    → IsServer (moved i (stream_one s))
unfolding stream_one
stream_one-IsServer i s was inv =
    take-IsServer i s.next (record new_session { up_taken = true; down_taken = true }) (s.next + 1)
      s refl refl refl (ground (arith, inv.small s.next)) was (omega arith) (omega arith) inv

handle_get-IsServer :
    (i : ℕ) (id : Option Bytes) (s : Server)
    → sender (s.tasks i) ≡ none
    → IsServer s
    → IsServer (moved i (handle_get id s))
unfolding handle_get
handle_get-IsServer i none s was inv = stream_one-IsServer i s was inv
handle_get-IsServer i (some id) s was inv = stay i (get_table id) s was refl refl inv

handle_post-none :
    (id seq_str body : Option Bytes)
    → (sender (handle_post id seq_str body) ≡ none) × (asker (handle_post id seq_str body) ≡ none)
unfolding handle_post
handle_post-none none seq_str body = (refl, refl)
handle_post-none (some id) seq_str body = (refl, refl)

dispatch-IsServer :
    (i : ℕ) (req : Request) (p : Option (Option Bytes × Option Bytes)) (s : Server)
    → sender (s.tasks i) ≡ none
    → IsServer s
    → IsServer (moved i (dispatch req p s))
unfolding dispatch
dispatch-IsServer i req none s was inv = stay i (answered (plain not_found)) s was refl refl inv
dispatch-IsServer i req (some (id, seq_str)) s was inv =
    elim (Bool-cases (is_get req.method && is_none seq_str)) [
      | inl down ↦ rw down (handle_get-IsServer i id s was inv)
      | inr up ↦
          let (without, unasked) = handle_post-none id seq_str req.body in
          rw up (stay i (handle_post id seq_str req.body) s was without unasked inv)
    ]

pub handle_request-IsServer :
    (cfg : XhttpConfig) (i : ℕ) (req : Request) (s : Server)
    → sender (s.tasks i) ≡ none
    → IsServer s
    → IsServer (moved i (handle_request cfg req s))
unfolding handle_request
handle_request-IsServer cfg i req s was inv = elim (Bool-cases (bad_host cfg req)) [
  | inl bad ↦ rw bad (stay i (answered (plain not_found)) s was refl refl inv)
  | inr good ↦ elim (Bool-cases (is_options req.method)) [
    | inl opt ↦ rw (good, opt) (stay i (answered (plain ok_status)) s was refl refl inv)
    | inr other ↦
        rw (good, other)
          (dispatch-IsServer i req (parse_path req.path (normalized_path cfg.path)) s was inv)
  ]
]

take_receivers-IsServer :
    (i k : ℕ) (s : Server)
    → sender (s.tasks i) ≡ none
    → k < s.next
    → IsServer s
    → IsServer (moved i (take_receivers k s))
unfolding take_receivers
take_receivers-IsServer i k s was small inv = elim (Bool-cases (s.session k).up_taken) [
  | inl gone ↦ rw gone (stay i (answered (plain conflict)) s was refl refl inv)
  | inr there ↦
      let down : (s.session k).down_taken ≡ false = inv.both k ∙ there in
      let open' : (s.session k).closed ≡ false = ground (arith, inv.closed k) in
      rw (there, down)
        (take-IsServer i k (record (s.session k) { up_taken = true; down_taken = true }) s.next s
          refl refl open' there was (omega arith) small inv)
]

send_ready-IsServer :
    (i k : ℕ) (s : Server)
    → sender (s.tasks i) ≡ some k
    → IsServer s
    → IsServer (moved i (send_ready k s))
unfolding send_ready
send_ready-IsServer i k s here inv = elim (Bool-cases (ready_has_room s)) [
  | inl room ↦ rw room (send-IsServer i k s here (ltb→lt _ _ room) inv)
  | inr full ↦ rw full (set_task-IsServer i (get_send k) s (sym here) (λ j h. cc h) inv)
]

post_to-none :
    (k : ℕ) (seq_str body : Option Bytes)
    → (sender (post_to k seq_str body) ≡ none) × (asker (post_to k seq_str body) ≡ none)
unfolding post_to
post_to-none k none body = (refl, refl)
post_to-none k (some text) body = elim (Result-cases (parse_unsigned (2 ^ 64) text)) [
  | inr (e, bad) ↦ rw (bad, post_to) (refl, refl)
  | inl (seq, parsed) ↦ elim (Option-cases body) [
    | inl lost ↦ rw (parsed, post_to) (rw (lost, post_to) (refl, refl))
    | inr (d, whole) ↦ rw (parsed, post_to) (rw (whole, post_to) (refl, refl))
  ]
]

-- A handler that waits for the lock of the table gets its session.
get_session-IsServer :
    (i : ℕ) (id : Bytes) (next : ℕ → Task) (s : Server)
    → ((k : ℕ) → (sender (next k) ≡ none) × (asker (next k) ≡ some k))
    → sender (s.tasks i) ≡ none
    → IsServer s
    → IsServer (set_task i (next (get_or_create_session id s).0) (get_or_create_session id s).1)
get_session-IsServer i id next s to was inv =
    let r = get_or_create_session id s in
    let got = get_or_create_session-HasEntry id s inv in
    set_task-IsServer i (next r.0) r.1
      ((to r.0).0 ∙ sym was ∙ ap (λ t. sender (t i)) (sym got.tasks))
      (λ k h.
        let same : r.0 ≡ k = some_inj (sym (to r.0).1 ∙ h) in let small = got.small in omega arith)
      got.server

-- A handler that waits on stays as it is.
wait : (i : ℕ) (x : Task) (s : Server) → s.tasks i ≡ x → IsServer s → IsServer (set_task i x s)
wait i x s at inv =
    set_task-IsServer i x s (ap sender (sym at)) (λ k h. inv.asked i k (ap asker at ∙ h)) inv

pub go_on-IsServer :
    (i : ℕ) (x : Task) (s : Server) → s.tasks i ≡ x → IsServer s → IsServer (moved i (go_on x s))
unfolding go_on
go_on-IsServer i idle s at inv = wait i idle s at inv
go_on-IsServer i (answered r) s at inv = wait i (answered r) s at inv
go_on-IsServer i dropped s at inv = wait i dropped s at inv
go_on-IsServer i (get_table id) s at inv = elim (Bool-cases (table_free s)) [
  | inl free ↦
      rw free (get_session-IsServer i id get_session s (λ k. (refl, refl)) (ap sender at) inv)
  | inr busy ↦ rw busy (wait i (get_table id) s at inv)
]
go_on-IsServer i (post_table id seq_str body) s at inv = elim (Bool-cases (table_free s)) [
  | inl free ↦ rw free (
      get_session-IsServer i id (λ k. post_session k seq_str body) s (λ k. (refl, refl))
        (ap sender at) inv)
  | inr busy ↦ rw busy (wait i (post_table id seq_str body) s at inv)
]
go_on-IsServer i (get_session k) s at inv = elim (Bool-cases (is_locked k s)) [
  | inl locked ↦ rw locked (wait i (get_session k) s at inv)
  | inr free ↦
      rw free (take_receivers-IsServer i k s (ap sender at) (inv.asked i k (ap asker at)) inv)
]
go_on-IsServer i (post_session k seq_str body) s at inv = elim (Bool-cases (is_locked k s)) [
  | inl locked ↦ rw locked (wait i (post_session k seq_str body) s at inv)
  | inr free ↦
      let (without, unasked) = post_to-none k seq_str body in
      rw free (stay i (post_to k seq_str body) s (ap sender at) without unasked inv)
]
go_on-IsServer i (get_send k) s at inv = send_ready-IsServer i k s (ap sender at) inv
go_on-IsServer i (post_send k p) s at inv = elim (Bool-cases (can_send (s.session k))) [
  | inl room ↦
      let same : (send_up k p s).tasks ≡ s.tasks = send_up-tasks k p s in
      rw room (
        stay i (answered (plain ok_status)) (send_up k p s)
          (ap (λ t. sender (t i)) same ∙ ap sender at) refl refl (send_up-IsServer k p s inv))
  | inr full ↦ rw full (wait i (post_send k p) s at inv)
]
