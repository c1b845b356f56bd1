-- ===== src/Tuic/Connection/Auth.antt =====
-- The steps of one connection, and what they keep: nothing is relayed or dialled for a client that
-- has not authenticated with the token of a configured user.
use ruproxy.Io.{read_exact, err}
use ruproxy.Tuic.Proto.{
  AuthInfo, packet, read_from_datagram, to_bytes, is_tuic_prefix, dissociate, heartbeat,
}
use ruproxy.Prelude.{
  ℕ, ◌≡◌, ◌≢◌, refl, true, List, [], ◌∷◌, ◌++◌, Option, none, some, arith, sym, Bool-cases, drop,
  ◌∙◌, ◌+◌, inl, inr, length, Option-cases,
}
use ruproxy.Bytes.{Bytes}
use ruproxy.Tuic.Connection.{
  Env, State, Pending, new, is_authenticated, go_on, handle_connect, handle_packet_data, handle_uni,
  handle_bi, Address, bi_stream, relay_packet, send, Result, handle_datagram, PacketInfo, Command,
  watchdog, session_timeout, parse_command_with_prefix, UdpMode, connect, ok, authenticate,
  after_bi, slice_payload, packet_stream, when_authenticated, after_stream, handle_authenticate,
  is_valid, after_datagram, is_some, quic, datagram, native, after_uni, handle_uni_command,
  handle_dissociate,
}

-- A step of a task, or of the peer: `resume` is a waiting task that the authentication woke,
-- `expire` one whose sleep ended first.
pub data Step (env : Env) : State → State → Type 0 where
  uni : (s : State) (recv : Bytes) → Step env s (handle_uni env recv s)
  bi : (s : State) (recv : Bytes) → Step env s (handle_bi env recv s)
  dgram : (s : State) (dg : Bytes) → Step env s (handle_datagram env dg s)
  resume :
      (s : State) (before after : List Pending) (task : Pending)
      → s.pending ≡ before ++ (task ∷ after)
      → is_authenticated s ≡ true
      → Step env s (go_on env task (record s { pending = before ++ after }))
  expire :
      (s : State) (before after : List Pending) (task : Pending)
      → s.pending ≡ before ++ (task ∷ after)
      → Step env s (record s { pending = before ++ after })
  watch : (s : State) → Step env s (watchdog env s)
  idle : (s : State) (id : ℕ) → Step env s (session_timeout env id s)

pub data Reach (env : Env) : State → Type 0 where
  start : Reach env new
  next : {s t : State} → Reach env s → Step env s t → Reach env t

module _ (env : Env) where
  handle_packet_data-auth :
      (info : PacketInfo) (payload : Bytes) (mode : UdpMode) (s : State)
      → (handle_packet_data env info payload mode s).auth ≡ s.auth
  unfolding handle_packet_data relay_packet send
  handle_packet_data-auth info payload mode s = ground arith

  handle_connect-auth : (addr : Address) (s : State) → (handle_connect env addr s).auth ≡ s.auth
  unfolding handle_connect
  handle_connect-auth addr s = ground arith

  after_bi-auth : (r : Result (Command × Bytes)) (s : State) → (after_bi env r s).auth ≡ s.auth
  unfolding after_bi
  after_bi-auth (ok (connect addr, rest)) s = handle_connect-auth addr s
  after_bi-auth (ok (_, rest)) s = refl
  after_bi-auth (err e) s = refl

  after_stream-auth :
      (info : PacketInfo) (r : Result (Bytes × Bytes)) (s : State)
      → (after_stream env info r s).auth ≡ s.auth
  unfolding after_stream
  after_stream-auth info (ok (payload, rest)) s = handle_packet_data-auth info payload quic s
  after_stream-auth info (err e) s = refl

  slice_payload-auth :
      (info : PacketInfo) (dg : Bytes) (s : State) → (slice_payload env info dg s).auth ≡ s.auth
  unfolding slice_payload
  slice_payload-auth info dg s =
      ground (
        arith,
        handle_packet_data-auth info (drop (2 + 8 + length (to_bytes info.addr)) dg) native s,
      )

  after_datagram-auth :
      (dg : Bytes) (r : Result Command) (s : State) → (after_datagram env dg r s).auth ≡ s.auth
  unfolding after_datagram
  after_datagram-auth dg (ok (packet info)) s = slice_payload-auth info dg s
  after_datagram-auth dg (ok _) s = refl
  after_datagram-auth dg (err e) s = refl

  go_on-auth : (task : Pending) (s : State) → (go_on env task s).auth ≡ s.auth
  unfolding go_on
  go_on-auth (bi_stream p0 p1 recv) s = after_bi-auth (parse_command_with_prefix p0 p1 recv) s
  go_on-auth (packet_stream info recv) s = after_stream-auth info (read_exact info.size recv) s
  go_on-auth (datagram dg) s = after_datagram-auth dg (read_from_datagram dg) s

-- What holds of every connection: its user is valid, and without one nothing has left the server.
record IsGuarded (env : Env) (s : State) : Type 0 where
  valid : (u : Bytes) → s.auth ≡ some u → (token : Bytes) × (is_valid env u token ≡ true)
  quiet : s.auth ≡ none → s.log ≡ []

module _ (env : Env) where
  some_injective : {u v : Bytes} → some u ≡ some v → u ≡ v
  some_injective e = cc

  -- A step that only authenticated connections take keeps the guard.
  authenticated-IsGuarded :
      {s t : State}
      → is_authenticated s ≡ true
      → t.auth ≡ s.auth
      → IsGuarded env s
      → IsGuarded env t
  authenticated-IsGuarded {s} {t} yes_auth same g = record {
    valid = λ u e. g.valid u (sym same ∙ e);
    quiet = λ e. absurd (no_user s.auth yes_auth (sym same ∙ e));
  }
    where
      no_user : (a : Option Bytes) → is_some a ≡ true → ¬ (a ≡ none)
      no_user none h e = cc
      no_user (some u) h e = cc

  -- A step that changes neither the user nor the log keeps it too.
  unchanged-IsGuarded :
      {s t : State} → t.auth ≡ s.auth → t.log ≡ s.log → IsGuarded env s → IsGuarded env t
  unchanged-IsGuarded same log g = record {
    valid = λ u e. g.valid u (sym same ∙ e);
    quiet = λ e. log ∙ g.quiet (sym same ∙ e);
  }

  handle_authenticate-IsGuarded :
      (info : AuthInfo) (s : State)
      → IsGuarded env s
      → IsGuarded env (handle_authenticate env info s)
  unfolding handle_authenticate
  handle_authenticate-IsGuarded info s g = elim (Bool-cases (is_authenticated s)) [
    | inl already ↦ rw already g
    | inr first ↦ elim (Bool-cases (is_valid env info.uuid info.token)) [
      | inl good ↦
          rw (first, good)
            (record { valid = λ u e. (info.token, rw (← some_injective e) good); quiet = λ e. cc })
      | inr bad ↦ rw (first, bad) (unchanged-IsGuarded refl refl g)
    ]
  ]

-- A property of the state that the three kinds of change keep is kept by every step.
module _ {κ} (env : Env) (P : State → Type κ)
    (act : (s t : State) → is_authenticated s ≡ true → t.auth ≡ s.auth → P s → P t)
    (still : (s t : State) → t.auth ≡ s.auth → t.log ≡ s.log → P s → P t)
    (login : (info : AuthInfo) (s : State) → P s → P (handle_authenticate env info s)) where
  when_authenticated-keeps : (task : Pending) (s : State) → P s → P (when_authenticated env task s)
  unfolding when_authenticated
  when_authenticated-keeps task s g = elim (Bool-cases (is_authenticated s)) [
    | inl now ↦ rw now (act _ _ now (go_on-auth env task s) g)
    | inr later ↦ rw later (still _ _ refl refl g)
  ]

  handle_uni_command-keeps :
      (c : Command) (rest : Bytes) (s : State) → P s → P (handle_uni_command env c rest s)
  unfolding handle_uni_command handle_dissociate
  handle_uni_command-keeps (authenticate info) rest s g = login info s g
  handle_uni_command-keeps (packet info) rest s g = when_authenticated-keeps _ s g
  handle_uni_command-keeps (dissociate id) rest s g = still _ _ refl refl g
  handle_uni_command-keeps (connect addr) rest s g = g
  handle_uni_command-keeps heartbeat rest s g = g

  after_uni-keeps : (r : Result (Command × Bytes)) (s : State) → P s → P (after_uni env r s)
  unfolding after_uni
  after_uni-keeps (ok (c, rest)) s g = handle_uni_command-keeps c rest s g
  after_uni-keeps (err e) s g = g

  handle_uni-keeps : (recv : Bytes) (s : State) → P s → P (handle_uni env recv s)
  unfolding handle_uni
  handle_uni-keeps [] s g = g
  handle_uni-keeps (p0 ∷ []) s g = g
  handle_uni-keeps (p0 ∷ p1 ∷ recv) s g = elim (Bool-cases (is_tuic_prefix p0 p1)) [
    | inl tuic ↦ rw tuic (after_uni-keeps (parse_command_with_prefix p0 p1 recv) s g)
    | inr other ↦ rw other g
  ]

  handle_bi-keeps : (recv : Bytes) (s : State) → P s → P (handle_bi env recv s)
  unfolding handle_bi
  handle_bi-keeps [] s g = g
  handle_bi-keeps (p0 ∷ []) s g = g
  handle_bi-keeps (p0 ∷ p1 ∷ recv) s g = elim (Bool-cases (is_tuic_prefix p0 p1)) [
    | inl tuic ↦ rw tuic (when_authenticated-keeps _ s g)
    | inr other ↦ rw other g
  ]

  handle_datagram-keeps : (dg : Bytes) (s : State) → P s → P (handle_datagram env dg s)
  unfolding handle_datagram
  handle_datagram-keeps [] s g = g
  handle_datagram-keeps (p0 ∷ []) s g = g
  handle_datagram-keeps (p0 ∷ p1 ∷ dg) s g = elim (Bool-cases (is_tuic_prefix p0 p1)) [
    | inl tuic ↦ rw tuic (when_authenticated-keeps _ s g)
    | inr other ↦ rw other g
  ]

  Step-keeps : {s t : State} → Step env s t → P s → P t
  unfolding watchdog session_timeout
  Step-keeps (uni s recv) g = handle_uni-keeps recv s g
  Step-keeps (bi s recv) g = handle_bi-keeps recv s g
  Step-keeps (dgram s dg) g = handle_datagram-keeps dg s g
  Step-keeps (resume s before after task e yes_auth) g = act _ _ yes_auth (go_on-auth env task _) g
  Step-keeps (expire s before after task e) g = still _ _ refl refl g
  Step-keeps (watch s) g = still _ _ (ground arith) (ground arith) g
  Step-keeps (idle s id) g = still _ _ (ground arith) (ground arith) g

module _ (env : Env) where
  Step-IsGuarded : {s t : State} → Step env s t → IsGuarded env s → IsGuarded env t
  Step-IsGuarded =
      Step-keeps env (IsGuarded env) (λ s t a e g. authenticated-IsGuarded env a e g)
        (λ s t e l g. unchanged-IsGuarded env e l g) (handle_authenticate-IsGuarded env)

  Reach-IsGuarded : {s : State} → Reach env s → IsGuarded env s
  Reach-IsGuarded start = record { valid = λ u e. cc; quiet = λ e. refl }
  Reach-IsGuarded (next r st) = Step-IsGuarded st (Reach-IsGuarded r)

relogin :
    (env : Env) (u : Bytes) (info : AuthInfo) (s : State)
    → s.auth ≡ some u
    → (handle_authenticate env info s).auth ≡ some u
unfolding handle_authenticate
relogin env u info s e = ground arith

-- In every reachable state of a connection, if anything was relayed or dialled, then the
-- connection is authenticated as some user, and a token that checks out for that user exists.
pub Reach-authenticated :
    (env : Env) {s : State}
    → Reach env s
    → s.log ≢ []
    → (u : Bytes) × (token : Bytes) × (s.auth ≡ some u) × (is_valid env u token ≡ true)
Reach-authenticated env {s} r sent = elim (Option-cases s.auth) [
  | inl nobody ↦ absurd (sent ((Reach-IsGuarded env r).quiet nobody))
  | inr (u, e) ↦ let (token, good) = (Reach-IsGuarded env r).valid u e in (u, token, e, good)
]

-- Once a user is set, no step of the connection sets another or forgets it.
pub Step-auth :
    (env : Env) {s t : State} (u : Bytes) → Step env s t → s.auth ≡ some u → t.auth ≡ some u
Step-auth env u =
    Step-keeps env (λ s. s.auth ≡ some u) (λ s t a e g. e ∙ g) (λ s t e l g. e ∙ g) (relogin env u)
