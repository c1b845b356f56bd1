-- ===== src/Xhttp/Stream/Heap.antt =====
-- The heap of src/common/transport/xhttp.rs: it gives the packet with the least number.
use ruproxy.Bytes.{Bytes}
use ruproxy.Prelude.{
  ℕ, suc, ◌≤◌, ◌<◌, ◌≡◌, refl, sym, ap, subst, true, Option, none, some, List, [], ◌∷◌, ◌==◌, leb,
  if◌then◌else◌, arith, All, inl, inr, Bool-cases, Option-cases, ne→==, le→leb, ==_iff, lt→leb,
}
use ruproxy.Xhttp.Stream.{PktEntry, UploadPacket, numbered, XhttpStream, pop, pop_next}
use ruproxy.Ids.{mem}

-- The packet with the number `k`.
abbrev pub pkt : (ℕ → Bytes) → ℕ → PktEntry
pkt pieces k = record { seq = k; data' = pieces k }

abbrev pub entries : (ℕ → Bytes) → List ℕ → List PktEntry
entries pieces [] = []
entries pieces (k ∷ ks) = pkt pieces k ∷ entries pieces ks

abbrev pub packets : (ℕ → Bytes) → List ℕ → List UploadPacket
packets pieces [] = []
packets pieces (k ∷ ks) = numbered (pkt pieces k) ∷ packets pieces ks

abbrev pub without : ℕ → List ℕ → List ℕ
without k [] = []
without k (h ∷ hs) = if h == k then hs else h ∷ without k hs

pub some_pair :
    {x y : PktEntry} {xs ys : List PktEntry}
    → ◌≡◌ {A = Option (PktEntry × List PktEntry)} (some (x, xs)) (some (y, ys))
    → x ≡ y
some_pair h = cc

pub pop-All :
    (P : PktEntry → Type 0) (es : List PktEntry) {e : PktEntry} {others : List PktEntry}
    → All P es
    → pop es ≡ some (e, others)
    → P e
unfolding pop
pop-All P [] h e = cc
pop-All P (x ∷ es) h e = elim (Option-cases (pop es)) [
  | inl empty ↦ subst P (some_pair (rw (empty, pop) at e)) h.0
  | inr ((least, rest), found) ↦ elim (Bool-cases (leb x.seq least.seq)) [
    | inl first ↦ subst P (some_pair (rw first at (rw (found, pop) at e))) h.0
    | inr after ↦ subst P (some_pair (rw after at (rw (found, pop) at e))) (pop-All P es h.1 found)
  ]
]

pub pop_empty : (es : List PktEntry) → pop es ≡ none → es ≡ []
unfolding pop
pop_empty [] h = refl
pop_empty (x ∷ es) h = elim (Option-cases (pop es)) [
  | inl empty ↦ cc (rw (empty, pop) at h)
  | inr ((least, rest), found) ↦ elim (Bool-cases (leb x.seq least.seq)) [
    | inl first ↦ cc (rw first at (rw (found, pop) at h))
    | inr after ↦ cc (rw after at (rw (found, pop) at h))
  ]
]

-- A lower bound of the numbers of the entries.
pub entries-All :
    (pieces : ℕ → Bytes) (k : ℕ) (hs : List ℕ)
    → All (λ h. k ≤ h) hs
    → All (λ e. k ≤ e.seq) (entries pieces hs)
entries-All pieces k [] h = tt
entries-All pieces k (x ∷ hs) h = (h.0, entries-All pieces k hs h.1)

pub pop_first :
    (pieces : ℕ → Bytes) (h : ℕ) (hs : List ℕ)
    → All (λ j. h ≤ j) hs
    → pop (entries pieces (h ∷ hs)) ≡ some (pkt pieces h, entries pieces hs)
unfolding pop
pop_first pieces h hs le = elim (Option-cases (pop (entries pieces hs))) [
  | inl empty ↦
      rw (empty, pop)
        (ap (λ es. some (pkt pieces h, es)) (sym (pop_empty (entries pieces hs) empty)))
  | inr ((least, rest), found) ↦
      let bound = pop-All (λ e. h ≤ e.seq) (entries pieces hs) (entries-All pieces h hs le) found in
      rw (found, pop) (rw (le→leb h least.seq bound) refl)
]

pub pop_least :
    (pieces : ℕ → Bytes) (k : ℕ) (hs : List ℕ)
    → All (λ h. k ≤ h) hs
    → mem hs k ≡ true
    → pop (entries pieces hs) ≡ some (pkt pieces k, entries pieces (without k hs))
unfolding pop
pop_least pieces k [] le m = cc
pop_least pieces k (h ∷ hs) le m = elim (Bool-cases (h == k)) [
  | inl here ↦
      let same = (==_iff h k).0 here in
      rw here (
        subst (λ x. pop (entries pieces (x ∷ hs)) ≡ some (pkt pieces k, entries pieces hs))
          (sym same) (pop_first pieces k hs le.1))
  | inr later ↦
      let differ : k < h = ground (arith, le.0, ==_iff h k) in
      let rest : mem hs k ≡ true = ground (arith, m, ==_iff k h) in
      rw later (rw (pop_least pieces k hs le.1 rest, pop) (rw (lt→leb h k differ) refl))
]

-- No entry is the next one.
pub pop_next_none :
    (pieces : ℕ → Bytes) (hs : List ℕ) (s : XhttpStream)
    → s.heap ≡ entries pieces hs
    → All (λ h. suc s.next_seq ≤ h) hs
    → pop_next s ≡ none
unfolding pop_next
pop_next_none pieces hs s same le = elim (Option-cases (pop s.heap)) [
  | inl empty ↦ rw (empty, pop_next) refl
  | inr ((top, others), found) ↦
      let bound =
        pop-All (λ e. suc s.next_seq ≤ e.seq) s.heap
          (subst (All (λ e. suc s.next_seq ≤ e.seq)) (sym same)
            (entries-All pieces (suc s.next_seq) hs le))
          found in
      rw (found, pop_next) (rw (ne→== top.seq s.next_seq (omega arith)) refl)
]
