-- ===== src/Xhttp/Stream/Order.antt =====
-- Numbered packets of src/common/transport/xhttp.rs, in whatever order they come, are read in the
-- order of their numbers.
use ruproxy.Bytes.{Bytes}
use ruproxy.Prelude.{
  ℕ, zero, suc, ◌+◌, ◌%◌, ◌^◌, ◌≤◌, ◌<◌, ◌≡◌, refl, sym, ap, ◌∙◌, subst, true, false, not, ◌&&◌,
  ◌||◌, some, List, [], ◌∷◌, ◌++◌, ◌==◌, ltb, leb, length, take, drop, arith, All, inl, inr,
  append_assoc, length-append, Bool-cases, ne→==, ==_iff, ==_refl, length-take, length-drop,
  take-append-drop,
}
use ruproxy.Xhttp.Stream.{
  XhttpStream, new_stream, pop, Poll, ready, pop_next, poll_read, read, read_all,
}
use ruproxy.Ids.{mem, range, Distinct, concat_pieces}
use ruproxy.Ids.Sorted.{sort-range}
use ruproxy.Xhttp.Stream.Heap.{pkt, entries, packets, without, pop_least, pop_next_none}

-- What holds of the numbers in the heap and of those in the channel, when the packets from `k` on,
-- up to `total`, are still to be read.
record Waits (total k : ℕ) (hs rs : List ℕ) : Type 0 where
  heap_distinct : Distinct hs
  rest_distinct : Distinct rs
  apart : (j : ℕ) → mem hs j ≡ true → mem rs j ≡ false
  all : (j : ℕ) → (mem hs j || mem rs j) ≡ (leb k j && ltb j total)

mem-All : (k : ℕ) (hs : List ℕ) → ((j : ℕ) → mem hs j ≡ true → k ≤ j) → All (λ h. k ≤ h) hs
mem-All k [] f = tt
mem-All k (h ∷ hs) f =
    (f h (rw (==_refl h) refl), mem-All k hs (λ j m. f j (rw (m) (ground arith))))

mem-without :
    (k : ℕ) (hs : List ℕ) (j : ℕ) → Distinct hs → mem (without k hs) j ≡ (mem hs j && not (j == k))
mem-without k [] j d = refl
mem-without k (h ∷ hs) j d =
    let once : j ≡ h → mem hs j ≡ false = λ e. subst (λ x. mem hs x ≡ false) (sym e) d.0 in
    ground (arith, once, mem-without k hs j d.1)

without-Distinct : (k : ℕ) (hs : List ℕ) → Distinct hs → Distinct (without k hs)
without-Distinct k [] d = tt
without-Distinct k (h ∷ hs) d =
    ground (arith, without-Distinct k hs d.1, mem-without k hs h d.1, d.0, d.1)

-- The packet `k` is read.
popped :
    (total k : ℕ) (hs rs : List ℕ)
    → mem hs k ≡ true
    → Waits total k hs rs
    → Waits total (suc k) (without k hs) rs
popped total k hs rs m w =
    let gone = w.apart k m in
    let other : (j : ℕ) → j ≡ k → mem rs j ≡ false =
      λ j e. subst (λ x. mem rs x ≡ false) (sym e) gone in
    let here : (j : ℕ) → j ≡ k → mem hs j ≡ true = λ j e. subst (λ x. mem hs x ≡ true) (sym e) m in
    record {
      heap_distinct = without-Distinct k hs w.heap_distinct;
      rest_distinct = w.rest_distinct;
      apart = λ j e. w.apart j (ground (arith, mem-without k hs j w.heap_distinct));
      all = λ j. ground (arith, w.all j, mem-without k hs j w.heap_distinct, other j, here j);
    }

-- A packet goes from the channel to the heap.
moved : (total k r : ℕ) (hs rs : List ℕ) → Waits total k hs (r ∷ rs) → Waits total k (r ∷ hs) rs
moved total k r hs rs w = record {
  heap_distinct = (ground (arith, w.apart r, ==_refl r), w.heap_distinct);
  rest_distinct = w.rest_distinct.1;
  apart = λ j e. ground (arith, w.apart j, subst (λ x. mem rs x ≡ false) {x = r} {y = j});
  all = λ j. ground (arith, w.all j);
}

-- The stream between two reads: every sender of the channel is done.
abbrev at : (ℕ → Bytes) → Bytes → List ℕ → List ℕ → ℕ → XhttpStream
at pieces l hs rs k = record {
  up_rx = record { queue = packets pieces rs; closed = true };
  heap = entries pieces hs;
  next_seq = k;
  leftover = l;
  stream_buf = [];
  eof = false;
}

-- What a read gives, and what it leaves, when the packet `k` is read.
abbrev GivesNext : (ℕ → Bytes) → ℕ → ℕ → ℕ → Poll × XhttpStream → Type 0
GivesNext pieces total n k r =
    (hs rs : List ℕ) × (r
      ≡ (ready (take n (pieces k)), at pieces (drop n (pieces k)) hs rs (suc k)))
    × Waits total (suc k) hs rs

poll_read-here :
    (pieces : ℕ → Bytes) (total n k fuel : ℕ) (rs hs : List ℕ)
    → total < 2 ^ 64
    → mem hs k ≡ true
    → Waits total k hs rs
    → GivesNext pieces total n k (poll_read (suc fuel) n (at pieces [] hs rs k))
unfolding poll_read
poll_read-here pieces total n k fuel rs hs fits there w =
    let below : k < total = ground (arith, w.all k, there) in
    let bound = mem-All k hs (λ j m. ground (arith, w.all j)) in
    let plus : (k + 1) % 2 ^ 64 ≡ suc k = omega arith in
    let top : pop_next (at pieces [] hs rs k) ≡ some (pkt pieces k, entries pieces (without k hs)) =
      unfold pop_next in rw (pop_least pieces k hs bound there, pop_next) (rw (==_refl k) refl) in
    (without k hs, rs, rw (top, poll_read) (rw plus refl), popped total k hs rs there w)

poll_read-next :
    (pieces : ℕ → Bytes) (total n k fuel : ℕ) (rs hs : List ℕ)
    → total < 2 ^ 64
    → length rs < fuel
    → k < total
    → Waits total k hs rs
    → GivesNext pieces total n k (poll_read fuel n (at pieces [] hs rs k))
unfolding poll_read
poll_read-next pieces total n k zero rs hs fits f more w = absurd (omega arith)
poll_read-next pieces total n k (suc fuel) [] hs fits f more w =
    poll_read-here pieces total n k fuel [] hs fits (ground (arith, w.all k)) w
poll_read-next pieces total n k (suc fuel) (r ∷ rs) hs fits f more w =
    elim (Bool-cases (mem hs k)) [
      | inl there ↦ poll_read-here pieces total n k fuel (r ∷ rs) hs fits there w
      | inr missing ↦
          let above : (j : ℕ) → mem hs j ≡ true → suc k ≤ j =
            λ j m. ground (arith, w.all j, subst (λ x. mem hs x ≡ false) {x = k} {y = j}) in
          let empty =
            pop_next_none pieces hs (at pieces [] hs (r ∷ rs) k) refl (mem-All (suc k) hs above) in
          let (hs', rs', e, w') =
            poll_read-next pieces total n k fuel rs (r ∷ hs) fits (omega arith) more
              (moved total k r hs rs w) in
          (hs', rs', rw (empty, poll_read) e, w')
    ]

-- When everything was read, the end of the channel is the end of the stream.
poll_read-end :
    (pieces : ℕ → Bytes) (total k n fuel : ℕ) (rs hs : List ℕ)
    → total ≤ k
    → Waits total k hs rs
    → (poll_read (suc fuel) n (at pieces [] hs rs k)).0 ≡ ready []
unfolding poll_read pop_next pop
poll_read-end pieces total k n fuel [] [] le w = refl
poll_read-end pieces total k n fuel (r ∷ rs) hs le w = absurd (ground (arith, w.all r, ==_refl r))
poll_read-end pieces total k n fuel [] (h ∷ hs) le w = absurd (ground (arith, w.all h, ==_refl h))

length-packets : (pieces : ℕ → Bytes) (rs : List ℕ) → length (packets pieces rs) ≡ length rs
length-packets pieces [] = refl
length-packets pieces (r ∷ rs) = ap suc (length-packets pieces rs)

serve :
    (rounds n : ℕ) (s t : XhttpStream) (front back whole : Bytes)
    → read n s ≡ (ready front, t)
    → 0 < length front
    → read_all rounds n t ≡ back
    → front ++ back ≡ whole
    → read_all (suc rounds) n s ≡ whole
unfolding read_all
serve rounds n s t front back whole e full rest split =
    rw e (rw (ne→== (length front) 0 (omega arith)) (rw rest split))

read_all-Waits :
    (pieces : ℕ → Bytes) (n m k total rounds : ℕ) (l : Bytes) (hs rs : List ℕ)
    → 0 < n
    → total < 2 ^ 64
    → ((j : ℕ) → j < total → 0 < length (pieces j))
    → k + m ≡ total
    → Waits total k hs rs
    → length l + length (concat_pieces pieces (range k m)) < rounds
    → read_all rounds n (at pieces l hs rs k) ≡ l ++ concat_pieces pieces (range k m)
read_all-Waits pieces n m k total zero l hs rs pos fits full e w h = absurd (omega arith)
read_all-Waits pieces n m k total (suc rounds) (b ∷ l) hs rs pos fits full e w h =
    serve rounds n (at pieces (b ∷ l) hs rs k) (at pieces (drop n (b ∷ l)) hs rs k) (take n (b ∷ l))
      (drop n (b ∷ l) ++ concat_pieces pieces (range k m))
      ((b ∷ l) ++ concat_pieces pieces (range k m))
      (unfold poll_read in rw (ne→== (suc (length l)) 0 (omega arith)) refl)
      (omega (arith, length-take n (b ∷ l)))
      (read_all-Waits pieces n m k total rounds (drop n (b ∷ l)) hs rs pos fits full e w
        (omega (arith, length-drop n (b ∷ l))))
      (sym (append_assoc (take n (b ∷ l)) (drop n (b ∷ l)) (concat_pieces pieces (range k m)))
        ∙ ap (λ x. x ++ concat_pieces pieces (range k m)) (take-append-drop n (b ∷ l)))
read_all-Waits pieces n zero k total (suc rounds) [] hs rs pos fits full e w h =
    unfold read_all in
    rw (poll_read-end pieces total k n (length (packets pieces rs)) rs hs (omega arith) w) refl
read_all-Waits pieces n (suc m) k total (suc rounds) [] hs rs pos fits full e w h =
    let (hs', rs', next, w') : GivesNext pieces total n k (read n (at pieces [] hs rs k)) =
      poll_read-next pieces total n k (suc (length (packets pieces rs))) rs hs fits
        (omega (arith, length-packets pieces rs)) (omega arith) w in
    let rest = concat_pieces pieces (range (suc k) m) in
    serve rounds n (at pieces [] hs rs k) (at pieces (drop n (pieces k)) hs' rs' (suc k))
      (take n (pieces k)) (drop n (pieces k) ++ rest) (pieces k ++ rest) next
      (omega (arith, length-take n (pieces k), full k (omega arith)))
      (read_all-Waits pieces n m (suc k) total rounds (drop n (pieces k)) hs' rs' pos fits full
        (omega arith) w'
        (omega
          (arith, length-drop n (pieces k), length-append (pieces k) rest, full k (omega arith))))
      (sym (append_assoc (take n (pieces k)) (drop n (pieces k)) rest)
        ∙ ap (λ x. x ++ rest) (take-append-drop n (pieces k)))

mem-lt : (t : ℕ) (ids : List ℕ) (j : ℕ) → All (λ k. k < t) ids → mem ids j ≡ true → j < t
mem-lt t [] j h m = cc
mem-lt t (k ∷ ids) j h m = ground (arith, h.0, mem-lt t ids j h.1, ==_iff j k)

-- If the packets numbered from 0 to `total` − 1, none of them empty, are in the channel in any
-- order, each once, and every sender is gone, then a reader with a buffer of any size above zero
-- that goes on until it gets no byte reads all of them, in the order of their numbers, in fewer
-- rounds than one more than their bytes; there are fewer than 2^64 packets.
pub read_all-packets :
    (pieces : ℕ → Bytes) (ids : List ℕ) (total n rounds : ℕ)
    → Distinct ids
    → All (λ k. k < total) ids
    → length ids ≡ total
    → total < 2 ^ 64
    → ((j : ℕ) → j < total → 0 < length (pieces j))
    → 0 < n
    → length (concat_pieces pieces (range 0 total)) < rounds
    → read_all rounds n (new_stream (record { queue = packets pieces ids; closed = true }))
      ≡ concat_pieces pieces (range 0 total)
read_all-packets pieces ids total n rounds d below len fits full pos enough =
    let complete = (sort-range total ids d below len).1 in
    let w : Waits total 0 [] ids = record {
      heap_distinct = tt;
      rest_distinct = d;
      apart = λ j m. cc;
      all = λ j. elim (Bool-cases (mem ids j)) [
        | inl there ↦ ground (arith, there, mem-lt total ids j below there)
        | inr missing ↦ ground (arith, missing, complete j)
      ];
    } in
    read_all-Waits pieces n total 0 total rounds [] [] ids pos fits full (omega arith) w
      (omega arith)
