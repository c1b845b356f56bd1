-- ===== src/Hysteria2/Gate/Passed.antt =====
-- Who passes the authentication of src/hysteria2/server.rs.
use ruproxy.Hysteria2.Gate.{waiting}
use ruproxy.Bytes.{Bytes}
use ruproxy.Hysteria2.Gate.{
  refused, gone, behind, closed, failed, Accepted, auth_loop, handle_connection, AuthConfig,
  request, HttpRequest, is_auth, passed, accepts, unresolved, unwrap_or, cc_rx, tcp_streams, Gate,
  behind,
}
use ruproxy.Prelude.{
  ℕ, ◌≡◌, ◌≢◌, refl, sym, ap, true, false, Option, List, [], ◌∷◌, ◌++◌, All, inl, inr, Bool-cases,
}

abbrev pub NotAuth : Accepted → Type 0
NotAuth (request r) = is_auth r ≡ false
NotAuth unresolved = Unit
NotAuth _ = ⊥

-- The first request for the authentication, among those that came.
pub record FirstAuth (es : List Accepted) (r : HttpRequest) : Type 0 where
  pub before : List Accepted
  pub after : List Accepted
  pub split : es ≡ before ++ (request r ∷ after)
  pub others : All NotAuth before
  pub is : is_auth r ≡ true

passed_later :
    {e : Accepted} {es : List Accepted} {r : HttpRequest}
    → NotAuth e
    → FirstAuth es r
    → FirstAuth (e ∷ es) r
passed_later {e} {es} {r} n f = record {
  before = e ∷ f.before;
  after = f.after;
  split = ap (◌∷◌ e) f.split;
  others = (n, f.others);
  is = f.is;
}

passed_inj : {a b : Bytes} → passed a ≡ passed b → a ≡ b
passed_inj h = cc

auth_loop-passed :
    (auth : AuthConfig) (down_bps : Option ℕ) (es : List Accepted) {rate : Bytes}
    → (auth_loop auth down_bps es).0 ≡ passed rate
    → (r : HttpRequest) × FirstAuth es r
      × (accepts auth (unwrap_or r.hysteria_auth []) ≡ true)
      × (rate ≡ cc_rx down_bps)
unfolding auth_loop
auth_loop-passed auth down_bps [] h = cc
auth_loop-passed auth down_bps (unresolved ∷ es) h =
    let (r, first, ok_, rate) = auth_loop-passed auth down_bps es h in
    (r, passed_later {e = unresolved} tt first, ok_, rate)
auth_loop-passed auth down_bps (closed ∷ es) h = cc
auth_loop-passed auth down_bps (failed ∷ es) h = cc
auth_loop-passed auth down_bps (request q ∷ es) h = elim (Bool-cases (is_auth q)) [
  | inl here ↦
      let h1 = rw here at h in
      elim (Bool-cases (accepts auth (unwrap_or q.hysteria_auth []))) [
        | inl good ↦ elim (Bool-cases q.takes_answer) [
          | inl taken ↦ (
            q,
            record { before = []; after = es; split = refl; others = tt; is = here },
            good,
            passed_inj (sym (rw (good, taken) at h1)),
          )
          | inr lost ↦ cc (rw (good, lost) at h1)
        ]
        | inr bad ↦ cc (rw bad at h1)
      ]
  | inr other ↦
      let (r, first, ok_, rate) = auth_loop-passed auth down_bps es (rw other at h) in
      (r, passed_later {e = request q} other first, ok_, rate)
]

behind-passed :
    (g : Gate) (streams : List Bytes) → behind g streams ≢ [] → (rate : Bytes) × (g ≡ passed rate)
behind-passed (passed rate) streams h = (rate, refl)
behind-passed waiting streams h = absurd (h refl)
behind-passed refused streams h = absurd (h refl)
behind-passed gone streams h = absurd (h refl)

-- TCP streams are served only if a POST request for the authentication's host and path came before
-- them, and the first such request has the configured password, or none is configured; then all of
-- them are.
pub handle_connection-served :
    (auth : AuthConfig) (down_bps : Option ℕ) (requests : List Accepted) (streams : List Bytes)
    → handle_connection auth down_bps requests streams ≢ []
    → (r : HttpRequest) × FirstAuth requests r
      × (accepts auth (unwrap_or r.hysteria_auth []) ≡ true)
      × (handle_connection auth down_bps requests streams ≡ tcp_streams streams)
unfolding handle_connection
handle_connection-served auth down_bps requests streams h =
    let (rate, e) = behind-passed (auth_loop auth down_bps requests).0 streams h in
    let (r, first, good, told) = auth_loop-passed auth down_bps requests e in
    (r, first, good, rw e refl)
