-- ===== src/Xhttp/Server/Keeps.antt =====
-- What the changes of the session table of src/common/transport/xhttp.rs keep.
use ruproxy.Bytes.{Bytes}
use ruproxy.Ids.{Distinct, mem}
use ruproxy.Prelude.{
  ℕ, ◌+◌, ◌≤◌, ◌<◌, ◌≡◌, refl, sym, ap, ◌∙◌, subst, true, false, Option, none, some, ◌==◌, length,
  arith, ◌⊎◌, inl, inr, Bool-cases, if◌then◌else◌,
}
use ruproxy.Map.{bytes_key, lookup}
use ruproxy.Xhttp.Server.{Server, Task, get_session, post_session, get_send, set_task}

-- The session whose stream a handler is to send, and the one whose lock it waits for.
abbrev pub sender : Task → Option ℕ
sender (get_send k) = some k
sender _ = none

abbrev pub asker : Task → Option ℕ
asker (get_session k) = some k
asker (post_session k seq_str body) = some k
asker _ = none

-- Where the receivers of a session went that were taken.
abbrev pub IsKept : Server → ℕ → Type 0
IsKept s k =
    (mem s.ready k ≡ true)
    ⊎ (((s.session k).closed ≡ true) ⊎ ((i : ℕ) × (sender (s.tasks i) ≡ some k)))

pub record IsServer (s : Server) : Type 0 where
  pub once : Distinct s.ready
  pub sent : (k : ℕ) → mem s.ready k ≡ true → (s.session k).up_taken ≡ true
  pub sending_taken : (i k : ℕ) → sender (s.tasks i) ≡ some k → (s.session k).up_taken ≡ true
  pub sending_unsent : (i k : ℕ) → sender (s.tasks i) ≡ some k → mem s.ready k ≡ false
  pub sending_open : (i k : ℕ) → sender (s.tasks i) ≡ some k → (s.session k).closed ≡ false
  pub alone : (i j k : ℕ) → sender (s.tasks i) ≡ some k → sender (s.tasks j) ≡ some k → i ≡ j
  pub kept : (k : ℕ) → (s.session k).up_taken ≡ true → IsKept s k
  pub closed : (k : ℕ) → (s.session k).closed ≡ true → (s.session k).up_taken ≡ true
  pub both : (k : ℕ) → (s.session k).down_taken ≡ (s.session k).up_taken
  pub small : (k : ℕ) → (s.session k).up_taken ≡ true → k < s.next
  pub entries : (id : Bytes) (k : ℕ) → lookup id s.sessions ≡ some k → k < s.next
  pub asked : (i k : ℕ) → asker (s.tasks i) ≡ some k → k < s.next
  pub received : s.accepted ≤ length s.ready
  pub bounded : length s.ready ≤ s.accepted + 64

pub sender-set :
    (i j : ℕ) (x : Task) (s : Server)
    → sender ((set_task i x s).tasks j) ≡ (if j == i then sender x else sender (s.tasks j))
sender-set i j x s = elim (Bool-cases (j == i)) [ inl e ↦ rw e | inr e ↦ rw e ]

pub asker-set :
    (i j : ℕ) (x : Task) (s : Server)
    → asker ((set_task i x s).tasks j) ≡ (if j == i then asker x else asker (s.tasks j))
asker-set i j x s = elim (Bool-cases (j == i)) [ inl e ↦ rw e | inr e ↦ rw e ]

-- Nothing that the invariant is about changes but the table, the count of what `accept` received
-- and what the handlers that have no stream do.
pub record IsStill (s t : Server) : Type 0 where
  pub ready : t.ready ≡ s.ready
  pub up_taken : (k : ℕ) → (t.session k).up_taken ≡ (s.session k).up_taken
  pub down_taken : (k : ℕ) → (t.session k).down_taken ≡ (s.session k).down_taken
  pub closed : (k : ℕ) → (t.session k).closed ≡ (s.session k).closed
  pub senders : (i : ℕ) → sender (t.tasks i) ≡ sender (s.tasks i)
  pub next : s.next ≤ t.next
  pub entries : (id : Bytes) (k : ℕ) → lookup id t.sessions ≡ some k → k < t.next
  pub asked : (i k : ℕ) → asker (t.tasks i) ≡ some k → k < t.next
  pub received : t.accepted ≤ length t.ready
  pub bounded : length t.ready ≤ t.accepted + 64

IsKept-still : (s t : Server) (k : ℕ) → IsStill s t → IsKept s k → IsKept t k
IsKept-still s t k same (inl there) = inl (ap (λ x. mem x k) same.ready ∙ there)
IsKept-still s t k same (inr (inl gone)) = inr (inl (same.closed k ∙ gone))
IsKept-still s t k same (inr (inr (i, h))) = inr (inr (i, same.senders i ∙ h))

pub still-IsServer : (s t : Server) → IsStill s t → IsServer s → IsServer t
still-IsServer s t same i =
    let back : (j k : ℕ) → sender (t.tasks j) ≡ some k → sender (s.tasks j) ≡ some k =
      λ j k h. sym (same.senders j) ∙ h in
    let was : (k : ℕ) → (t.session k).up_taken ≡ true → (s.session k).up_taken ≡ true =
      λ k h. sym (same.up_taken k) ∙ h in
    record {
      once = subst Distinct (sym same.ready) i.once;
      sent = λ k h. same.up_taken k ∙ i.sent k (sym (ap (λ x. mem x k) same.ready) ∙ h);
      sending_taken = λ j k h. same.up_taken k ∙ i.sending_taken j k (back j k h);
      sending_unsent = λ j k h. ap (λ x. mem x k) same.ready ∙ i.sending_unsent j k (back j k h);
      sending_open = λ j k h. same.closed k ∙ i.sending_open j k (back j k h);
      alone = λ j l k h m. i.alone j l k (back j k h) (back l k m);
      kept = λ k h. IsKept-still s t k same (i.kept k (was k h));
      closed = λ k h. same.up_taken k ∙ i.closed k (sym (same.closed k) ∙ h);
      both = λ k. same.down_taken k ∙ i.both k ∙ sym (same.up_taken k);
      small = λ k h. omega (arith, same.next, i.small k (was k h));
      entries = same.entries;
      asked = same.asked;
      received = same.received;
      bounded = same.bounded;
    }

-- A handler without a stream goes to another wait without one.
pub set_task-IsServer :
    (i : ℕ) (x : Task) (s : Server)
    → sender x ≡ sender (s.tasks i)
    → ((k : ℕ) → asker x ≡ some k → k < s.next)
    → IsServer s
    → IsServer (set_task i x s)
set_task-IsServer i x s same known inv =
    still-IsServer s (set_task i x s)
      (record {
        ready = refl;
        up_taken = λ k. refl;
        down_taken = λ k. refl;
        closed = λ k. refl;
        senders = λ j.
            let at : j ≡ i → sender (s.tasks i) ≡ sender (s.tasks j) =
              λ e. ap (λ y. sender (s.tasks y)) (sym e) in
            ground (arith, sender-set i j x s, same, at);
        next = omega arith;
        entries = inv.entries;
        asked = λ j k h. ground (arith, asker-set i j x s, known k, inv.asked j k, h);
        received = inv.received;
        bounded = inv.bounded;
      })
      inv
