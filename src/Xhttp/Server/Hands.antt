-- ===== src/Xhttp/Server/Hands.antt =====
-- The moves of a stream in src/common/transport/xhttp.rs: it is taken, sent to `accept`, or dropped.
use ruproxy.Ids.{mem}
use ruproxy.Prelude.{
  ℕ, ◌+◌, ◌≤◌, ◌<◌, ◌≡◌, refl, sym, ap, ◌∙◌, subst, Bool, true, false, none, some, ◌∷◌, ◌==◌,
  length, arith, inl, inr, Bool-cases, ==_iff, if◌then◌else◌,
}
use ruproxy.Map.{bytes_key}
use ruproxy.Xhttp.Server.{Server, Session, Task, get_send, answered, stream, set_session, set_task}
use ruproxy.Xhttp.Server.Keeps.{IsServer, sender, asker, sender-set, asker-set}

flag-set :
    (f : Session → Bool) (k j : ℕ) (v : Session) (s : Server)
    → f ((set_session k v s).session j) ≡ (if j == k then f v else f (s.session j))
flag-set f k j v s = elim (Bool-cases (j == k)) [ inl e ↦ rw e | inr e ↦ rw e ]

-- A handler without a stream takes the receivers of a session, which may be a new one.
pub take-IsServer :
    (i k : ℕ) (v : Session) (n : ℕ) (s : Server)
    → v.up_taken ≡ true
    → v.down_taken ≡ true
    → v.closed ≡ false
    → (s.session k).up_taken ≡ false
    → sender (s.tasks i) ≡ none
    → s.next ≤ n
    → k < n
    → IsServer s
    → IsServer (set_task i (get_send k) (record (set_session k v s) { next = n }))
take-IsServer i k v n s up down open' untaken without grows small inv =
    let up_of = λ (j : ℕ). flag-set (λ x. x.up_taken) k j v s in
    let closed_of = λ (j : ℕ). flag-set (λ x. x.closed) k j v s in
    let task_of = λ (j : ℕ). sender-set i j (get_send k) s in
    let same : (j : ℕ) → j ≡ k → (s.session j).up_taken ≡ false =
      λ j e. subst (λ x. (s.session x).up_taken ≡ false) (sym e) untaken in
    let unsent : mem s.ready k ≡ false = ground (arith, inv.sent k) in
    let unsent_at : (j : ℕ) → j ≡ k → mem s.ready j ≡ false =
      λ j e. subst (λ x. mem s.ready x ≡ false) (sym e) unsent in
    let none_at : (j : ℕ) → j ≡ i → sender (s.tasks j) ≡ none =
      λ j e. subst (λ x. sender (s.tasks x) ≡ none) (sym e) without in
    record {
      once = inv.once;
      sent = λ j h. ground (arith, up_of j, inv.sent j h);
      sending_taken = λ j l h. ground (arith, up_of l, task_of j, inv.sending_taken j l);
      sending_unsent = λ j l h. ground (arith, task_of j, unsent_at l, inv.sending_unsent j l);
      sending_open = λ j l h.
          ground (arith, closed_of l, task_of j, inv.sending_open j l, same l, inv.closed l);
      alone = λ j l m g h. ground (
        arith,
        task_of j,
        task_of l,
        inv.alone j l m,
        inv.sending_taken j m,
        inv.sending_taken l m,
        same m,
      );
      kept = λ j h. elim (Bool-cases (j == k)) [
        | inl here ↦ inr (inr (i, ground (arith, task_of i, here)))
        | inr other ↦ elim (inv.kept j (ground (arith, up_of j))) [
          | inl there ↦ inl there
          | inr (inl gone) ↦ inr (inl (ground (arith, closed_of j)))
          | inr (inr (l, has)) ↦ inr (inr (l, ground (arith, task_of l, none_at l, has)))
        ]
      ];
      closed = λ j h. ground (arith, up_of j, closed_of j, inv.closed j);
      both = λ j. ground (arith, up_of j, flag-set (λ x. x.down_taken) k j v s, inv.both j);
      small = λ j h. ground (arith, up_of j, inv.small j);
      entries = λ id j h. omega (arith, inv.entries id j h);
      asked = λ j l h. ground (arith, asker-set i j (get_send k) s, inv.asked j l);
      received = inv.received;
      bounded = inv.bounded;
    }

-- The stream goes into the channel of `accept`.
pub send-IsServer :
    (i k : ℕ) (s : Server)
    → sender (s.tasks i) ≡ some k
    → length s.ready < s.accepted + 64
    → IsServer s
    → IsServer (set_task i (answered (stream k)) (record s { ready = k ∷ s.ready }))
send-IsServer i k s here room inv =
    let task_of = λ (j : ℕ). sender-set i j (answered (stream k)) s in
    let taken : (j : ℕ) → j ≡ k → (s.session j).up_taken ≡ true =
      λ j e. subst (λ x. (s.session x).up_taken ≡ true) (sym e) (inv.sending_taken i k here) in
    let here_at : (j : ℕ) → j ≡ k → sender (s.tasks i) ≡ some j =
      λ j e. subst (λ x. sender (s.tasks i) ≡ some x) (sym e) here in
    record {
      once = (inv.sending_unsent i k here, inv.once);
      sent = λ j h. ground (arith, taken j, inv.sent j);
      sending_taken = λ j l h. ground (arith, task_of j, inv.sending_taken j l);
      sending_unsent =
          λ j l h. ground (arith, task_of j, inv.sending_unsent j l, inv.alone i j l, here_at l);
      sending_open = λ j l h. ground (arith, task_of j, inv.sending_open j l);
      alone = λ j l m g h. ground (arith, task_of j, task_of l, inv.alone j l m);
      kept = λ j h. elim (Bool-cases (j == k)) [
        | inl same ↦ inl (ground (arith, same))
        | inr other ↦ elim (inv.kept j h) [
          | inl there ↦ inl (ground (arith, there))
          | inr (inl gone) ↦ inr (inl gone)
          | inr (inr (l, has)) ↦
              let clash : l ≡ i → sender (s.tasks i) ≡ some j =
                λ e. subst (λ x. sender (s.tasks x) ≡ some j) e has in
              inr (inr (l, ground (arith, task_of l, clash, here, has, other)))
        ]
      ];
      closed = inv.closed;
      both = inv.both;
      small = inv.small;
      entries = inv.entries;
      asked = λ j l h. ground (arith, asker-set i j (answered (stream k)) s, inv.asked j l);
      received = omega (arith, inv.received);
      bounded = omega arith;
    }

-- A flag that is not `closed` is as it was.
closed-flag :
    (f : Session → Bool) (k j : ℕ) (s : Server)
    → f (record (s.session k) { closed = true }) ≡ f (s.session k)
    → f ((set_session k (record (s.session k) { closed = true }) s).session j) ≡ f (s.session j)
closed-flag f k j s same = elim (Bool-cases (j == k)) [
  | inl here ↦
      let e : j ≡ k = (==_iff j k).0 here in rw here (same ∙ ap (λ x. f (s.session x)) (sym e))
  | inr other ↦ rw other
]

-- A handler is dropped with its stream.
pub drop-IsServer :
    (i k : ℕ) (x : Task) (s : Server)
    → sender (s.tasks i) ≡ some k
    → sender x ≡ none
    → asker x ≡ none
    → IsServer s
    → IsServer (set_task i x (set_session k (record (s.session k) { closed = true }) s))
drop-IsServer i k x s here without unasked inv =
    let v : Session = record (s.session k) { closed = true } in
    let up_of = λ (j : ℕ). closed-flag (λ x. x.up_taken) k j s refl in
    let closed_of = λ (j : ℕ). flag-set (λ x. x.closed) k j v s in
    let task_of = λ (j : ℕ). sender-set i j x s in
    let taken : (j : ℕ) → j ≡ k → (s.session j).up_taken ≡ true =
      λ j e. subst (λ x. (s.session x).up_taken ≡ true) (sym e) (inv.sending_taken i k here) in
    let here_at : (j : ℕ) → j ≡ k → sender (s.tasks i) ≡ some j =
      λ j e. subst (λ x. sender (s.tasks i) ≡ some x) (sym e) here in
    record {
      once = inv.once;
      sent = λ j h. up_of j ∙ inv.sent j h;
      sending_taken = λ j l h. up_of l ∙ ground (arith, task_of j, without, inv.sending_taken j l);
      sending_unsent = λ j l h. ground (arith, task_of j, without, inv.sending_unsent j l);
      sending_open = λ j l h. ground (
        arith,
        task_of j,
        without,
        closed_of l,
        inv.sending_open j l,
        inv.alone i j l,
        here_at l,
      );
      alone = λ j l m g h. ground (arith, task_of j, task_of l, without, inv.alone j l m);
      kept = λ j h. elim (Bool-cases (j == k)) [
        | inl same ↦ inr (inl (ground (arith, closed_of j, same)))
        | inr other ↦ elim (inv.kept j (sym (up_of j) ∙ h)) [
          | inl there ↦ inl there
          | inr (inl gone) ↦ inr (inl (ground (arith, closed_of j)))
          | inr (inr (l, has)) ↦
              let clash : l ≡ i → sender (s.tasks i) ≡ some j =
                λ e. subst (λ x. sender (s.tasks x) ≡ some j) e has in
              inr (inr (l, ground (arith, task_of l, clash, here, has, other)))
        ]
      ];
      closed = λ j h. up_of j ∙ ground (arith, closed_of j, taken j, inv.closed j, h);
      both = λ j. closed-flag (λ x. x.down_taken) k j s refl ∙ inv.both j ∙ sym (up_of j);
      small = λ j h. inv.small j (sym (up_of j) ∙ h);
      entries = inv.entries;
      asked = λ j l h. ground (arith, asker-set i j x s, unasked, inv.asked j l);
      received = inv.received;
      bounded = inv.bounded;
    }

-- A reader drops the stream that `accept` gave it.
pub close-IsServer :
    (k : ℕ) (s : Server)
    → mem s.ready k ≡ true
    → IsServer s
    → IsServer (set_session k (record (s.session k) { closed = true }) s)
close-IsServer k s there inv =
    let v : Session = record (s.session k) { closed = true } in
    let up_of = λ (j : ℕ). closed-flag (λ x. x.up_taken) k j s refl in
    let closed_of = λ (j : ℕ). flag-set (λ x. x.closed) k j v s in
    let there_at : (j : ℕ) → j ≡ k → mem s.ready j ≡ true =
      λ j e. subst (λ x. mem s.ready x ≡ true) (sym e) there in
    record {
      once = inv.once;
      sent = λ j h. up_of j ∙ inv.sent j h;
      sending_taken = λ j l h. up_of l ∙ inv.sending_taken j l h;
      sending_unsent = inv.sending_unsent;
      sending_open = λ j l h.
          ground (arith, closed_of l, there_at l, inv.sending_unsent j l h, inv.sending_open j l h);
      alone = inv.alone;
      kept = λ j h. elim (inv.kept j (sym (up_of j) ∙ h)) [
        | inl sent ↦ inl sent
        | inr (inl gone) ↦ inr (inl (ground (arith, closed_of j)))
        | inr (inr sending) ↦ inr (inr sending)
      ];
      closed =
          λ j h. up_of j ∙ ground (arith, closed_of j, there_at j, inv.sent j, inv.closed j, h);
      both = λ j. closed-flag (λ x. x.down_taken) k j s refl ∙ inv.both j ∙ sym (up_of j);
      small = λ j h. inv.small j (sym (up_of j) ∙ h);
      entries = inv.entries;
      asked = inv.asked;
      received = inv.received;
      bounded = inv.bounded;
    }
