-- ===== src/Xhttp/Stream/Stale.antt =====
-- A numbered packet that comes again after it was read: src/common/transport/xhttp.rs.
use ruproxy.Prelude.{
  ℕ, zero, suc, ◌<◌, ◌≡◌, refl, Bool, true, false, ◌||◌, none, some, List, [], ◌∷◌, ltb, leb, arith,
  inl, inr, Bool-cases, ne→==, Option-cases,
}
use ruproxy.Xhttp.Stream.{
  PktEntry, UploadPacket, chunk, numbered, finish, XhttpStream, pop, Poll, pending, ready, pop_next,
  poll_read,
}

-- An entry of the heap has a number below `k`.
abbrev pub has_below : ℕ → List PktEntry → Bool
has_below k [] = false
has_below k (e ∷ es) = ltb e.seq k || has_below k es

abbrev pub AllNumbered : List UploadPacket → Type 0
AllNumbered [] = Unit
AllNumbered (numbered e ∷ ps) = AllNumbered ps
AllNumbered (_ ∷ ps) = ⊥

pop-below :
    (k : ℕ) (es : List PktEntry)
    → has_below k es ≡ true
    → (e : PktEntry) × (others : List PktEntry) × (pop es ≡ some (e, others)) × (e.seq < k)
unfolding pop
pop-below k [] h = cc
pop-below k (x ∷ es) h = elim (Bool-cases (has_below k es)) [
  | inl later ↦
      let (e, others, found, small) = pop-below k es later in
      elim (Bool-cases (leb x.seq e.seq)) [
        | inl first ↦ (x, es, rw (found, pop) (rw first refl), ground (arith, small))
        | inr after ↦ (e, x ∷ others, rw (found, pop) (rw after refl), small)
      ]
  | inr none_later ↦
      let small : x.seq < k = ground (arith, h) in
      elim (Option-cases (pop es)) [
        | inl empty ↦ (x, [], rw (empty, pop) refl, small)
        | inr ((e, others), found) ↦ elim (Bool-cases (leb x.seq e.seq)) [
          | inl first ↦ (x, es, rw (found, pop) (rw first refl), small)
          | inr after ↦ (e, x ∷ others, rw (found, pop) (rw after refl), ground (arith, after))
        ]
      ]
]

pop_next-stuck : (s : XhttpStream) → has_below s.next_seq s.heap ≡ true → pop_next s ≡ none
unfolding pop_next
pop_next-stuck s h =
    let (e, others, found, small) = pop-below s.next_seq s.heap h in
    rw (found, pop_next) (rw (ne→== e.seq s.next_seq (omega arith)) refl)

-- Nothing was read: the reader waits, or takes it for the end.
abbrev pub NoData : Poll → Type 0
NoData pending = Unit
NoData (ready d) = d ≡ []

-- A stream with nothing buffered, whose next packet is `k`.
abbrev pub waiting : ℕ → List PktEntry → List UploadPacket → Bool → Bool → XhttpStream
waiting k heap queue closed eof = record {
  up_rx = record { queue = queue; closed = closed };
  heap = heap;
  next_seq = k;
  leftover = [];
  stream_buf = [];
  eof = eof;
}

-- The result of a read that gives no data and leaves an old packet in the heap.
abbrev pub StaysStuck : ℕ → Poll × XhttpStream → Type 0
StaysStuck k r =
    NoData r.0
    × (heap : List PktEntry) × (queue : List UploadPacket) × (closed eof : Bool) × (r.1
        ≡ waiting k heap queue closed eof)
    × (has_below k heap ≡ true)
    × AllNumbered queue

-- If the heap of a stream holds a packet with a number below the next one, nothing is buffered and
-- the channel holds only numbered packets, then a read gives no data whatever those packets are,
-- the next one among them, and leaves the stream in such a state again, however often it polls the
-- channel.
pub poll_read-old :
    (fuel n k : ℕ) (heap : List PktEntry) (queue : List UploadPacket) (closed eof : Bool)
    → has_below k heap ≡ true
    → AllNumbered queue
    → StaysStuck k (poll_read fuel n (waiting k heap queue closed eof))
unfolding poll_read
poll_read-old zero n k heap queue closed eof h a = (tt, heap, queue, closed, eof, refl, h, a)
poll_read-old (suc fuel) n k heap queue closed true h a =
    rw (pop_next-stuck (waiting k heap queue closed true) h, poll_read)
      ((refl, heap, queue, closed, true, refl, h, a))
poll_read-old (suc fuel) n k heap [] true false h a =
    rw (pop_next-stuck (waiting k heap [] true false) h, poll_read)
      ((refl, heap, [], true, true, refl, h, a))
poll_read-old (suc fuel) n k heap [] false false h a =
    rw (pop_next-stuck (waiting k heap [] false false) h, poll_read)
      ((tt, heap, [], false, false, refl, h, a))
poll_read-old (suc fuel) n k heap (numbered e ∷ queue) closed false h a =
    rw (pop_next-stuck (waiting k heap (numbered e ∷ queue) closed false) h, poll_read)
      (poll_read-old fuel n k (e ∷ heap) queue closed false (ground (arith, h)) a)
poll_read-old (suc fuel) n k heap (chunk d ∷ queue) closed false h a = absurd a
poll_read-old (suc fuel) n k heap (finish ∷ queue) closed false h a = absurd a
