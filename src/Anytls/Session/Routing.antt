-- ===== src/Anytls/Session/Routing.antt =====
-- The data of each stream: PSH frames of src/anytls/session.rs, of several streams in any order.
use ruproxy.Bytes.{Bytes}
use ruproxy.Prelude.{
  ℕ, ◌≡◌, ◌≢◌, refl, sym, ap, ◌∙◌, subst, false, some, List, [], ◌∷◌, ◌++◌, ◌==◌, if◌then◌else◌,
  arith, inl, inr, append_assoc, append-nil, Bool-cases, Option-cases, ==_iff, ne→==,
}
use ruproxy.Anytls.Session.{State, handle_psh, deliver, deliver_or}
use ruproxy.Anytls.Session.Keeps.{
  IsSession, Shrinks-IsSession, handle_psh-Shrinks, some_inj, deliver-streams,
}
use ruproxy.Map.{lookup, insert, nat_eq, lookup-remove, lookup-insert, lookup-insert_self}

-- PSH frames in their order, each with its stream and its data.
unfoldable pub handle_pshs : List (ℕ × Bytes) → State → State
handle_pshs [] s = s
handle_pshs ((sid, d) ∷ rest) s = handle_pshs rest (handle_psh sid d s)

-- The data of one stream.
abbrev pub data_of : ℕ → List (ℕ × Bytes) → List Bytes
data_of sid [] = []
data_of sid ((j, d) ∷ rest) = if j == sid then d ∷ data_of sid rest else data_of sid rest

abbrev pub HasQueue : ℕ → ℕ → List Bytes → State → Type 0
HasQueue sid ch q s =
    (lookup sid s.streams ≡ some ch)
    × (lookup ch s.channels ≡ some (record { queue = q; gone = false }))

deliver-found :
    (ch : ℕ) (d : Bytes) (q : List Bytes) (s : State)
    → lookup ch s.channels ≡ some (record { queue = q; gone = false })
    → deliver ch d s
      ≡ some (record s {
        channels = insert ch (record { queue = q ++ (d ∷ []); gone = false }) s.channels;
      })
unfolding deliver
deliver-found ch d q s h = rw (h, deliver) refl

psh_here :
    (sid ch : ℕ) (d : Bytes) (q : List Bytes) (s : State)
    → HasQueue sid ch q s
    → HasQueue sid ch (q ++ (d ∷ [])) (handle_psh sid d s)
unfolding handle_psh
psh_here sid ch d q s h =
    rw (h.0, handle_psh)
      (rw (deliver-found ch d q s h.1, deliver_or)
        ((h.0, lookup-insert_self ch (record { queue = q ++ (d ∷ []); gone = false }) s.channels)))

-- A delivery to another channel.
deliver-apart :
    (k ch : ℕ) (d : Bytes) (s : State) {t : State}
    → k ≢ ch
    → deliver k d s ≡ some t
    → lookup ch t.channels ≡ lookup ch s.channels
unfolding deliver
deliver-apart k ch d s {t} differ h = elim (Option-cases (lookup k s.channels)) [
  | inl absent ↦ cc (rw (absent, deliver) at h)
  | inr (c, e) ↦ elim (Bool-cases c.gone) [
    | inl dropped ↦ cc (rw dropped at (rw (e, deliver) at h))
    | inr there ↦
        let same = rw there at (rw (e, deliver) at h) in
        ap (λ (u : State). lookup ch u.channels) (sym (some_inj same))
        ∙ lookup-insert k ch (record { queue = c.queue ++ (d ∷ []); gone = false }) s.channels
        ∙ rw (ne→== k ch differ) refl
  ]
]

psh_other :
    (sid ch j : ℕ) (d : Bytes) (q : List Bytes) (s : State)
    → IsSession s
    → j ≢ sid
    → HasQueue sid ch q s
    → HasQueue sid ch q (handle_psh j d s)
unfolding handle_psh
psh_other sid ch j d q s i differ h = elim (Option-cases (lookup j s.streams)) [
  | inl unknown ↦ rw (unknown, handle_psh) h
  | inr (k, e) ↦
      let other : k ≢ ch = λ same. differ (i.apart j sid ch (e ∙ ap some same) h.0) in
      elim (Option-cases (deliver k d s)) [
        | inl lost ↦
            rw (e, handle_psh)
              (rw (lost, deliver_or)
                ((lookup-remove j sid s.streams ∙ (rw (ne→== j sid differ) h.0), h.1)))
        | inr (t, found) ↦
            rw (e, handle_psh)
              (rw (found, deliver_or)
                ((
                  ap (λ m. lookup sid m) (deliver-streams k d s found).0 ∙ h.0,
                  deliver-apart k ch d s other found ∙ h.1,
                )))
      ]
]

-- Let a stream of a session be open, its reader there and with some data in its queue, and let no
-- streams share a channel; after PSH frames for any streams, in any order, the stream is still
-- open, and its queue holds what was there and then the data of its own frames, in their order,
-- and nothing of any other stream.
pub handle_pshs-HasQueue :
    (sid ch : ℕ) (frames : List (ℕ × Bytes)) (q : List Bytes) (s : State)
    → IsSession s
    → HasQueue sid ch q s
    → HasQueue sid ch (q ++ data_of sid frames) (handle_pshs frames s)
unfolding handle_pshs
handle_pshs-HasQueue sid ch [] q s i h = rw append-nil h
handle_pshs-HasQueue sid ch ((j, d) ∷ rest) q s i h =
    let later = Shrinks-IsSession (handle_psh-Shrinks j d s) i in
    elim (Bool-cases (j == sid)) [
      | inl same ↦
          let here = (==_iff j sid).0 same in
          let mine =
            subst (λ x. HasQueue sid ch (q ++ (d ∷ [])) (handle_psh x d s)) (sym here)
              (psh_here sid ch d q s h) in
          rw same (
            subst (λ x. HasQueue sid ch x (handle_pshs rest (handle_psh j d s)))
              (append_assoc q (d ∷ []) (data_of sid rest))
              (handle_pshs-HasQueue sid ch rest (q ++ (d ∷ [])) (handle_psh j d s) later mine))
      | inr other ↦ rw other (
          handle_pshs-HasQueue sid ch rest q (handle_psh j d s) later
            (psh_other sid ch j d q s i (λ e. ground (arith, ==_iff j sid)) h))
    ]
