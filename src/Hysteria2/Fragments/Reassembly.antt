-- ===== src/Hysteria2/Fragments/Reassembly.antt =====
-- A packet's fragments, in any order, are reassembled: `relay_frame` of src/hysteria2/proxy.rs.
use ruproxy.Prelude.{
  ℕ, zero, suc, ◌+◌, ◌≤◌, ◌<◌, ◌≡◌, refl, sym, ap, true, false, none, some, List, [], ◌∷◌, ◌++◌,
  leb, length, if◌then◌else◌, arith, All, ==_iff,
}
use ruproxy.Bytes.{Bytes}
use ruproxy.Hysteria2.Frame.{UdpFrame}
use ruproxy.Hysteria2.Fragments.{
  FragBuffer, keys, frag, joined, or_insert, insert_frag, relay_frame, relay_frames, after_insert,
  sent_list, buffer_for, Table, target_of, ℕ, List, length, ◌<◌, ◌≡◌, ◌∷◌, ap, some, true, none,
  suc, arith, sort,
}
use ruproxy.Ids.{mem, range, Distinct, concat_pieces}
use ruproxy.Ids.Sorted.{sort-range}
use ruproxy.Map.{nat_eq, lookup, Map, lookup-insert_self, lookup-remove_self}

-- What a client sends: the frame with the piece `id` of a packet in `n` pieces.
abbrev pub fragment : UdpFrame → (ℕ → Bytes) → ℕ → UdpFrame
fragment head pieces id = record head { frag_id = id; payload = pieces id }

abbrev pub fragments : UdpFrame → (ℕ → Bytes) → List ℕ → List UdpFrame
fragments head pieces [] = []
fragments head pieces (id ∷ ids) = fragment head pieces id ∷ fragments head pieces ids

abbrev pairs : (ℕ → Bytes) → List ℕ → Map ℕ Bytes
pairs pieces [] = []
pairs pieces (id ∷ ids) = (id, pieces id) ∷ pairs pieces ids

-- The buffer after the pieces `ids`.
abbrev filled : UdpFrame → (ℕ → Bytes) → List ℕ → FragBuffer
filled head pieces ids = record {
  total = head.frag_total;
  received = length ids;
  frags = pairs pieces ids;
  addr = head.addr;
  port = head.port;
}

keys-pairs : (pieces : ℕ → Bytes) (ids : List ℕ) → keys (pairs pieces ids) ≡ ids
keys-pairs pieces [] = refl
keys-pairs pieces (id ∷ ids) = ap (◌∷◌ id) (keys-pairs pieces ids)

lookup-pairs :
    (pieces : ℕ → Bytes) (ids : List ℕ) (id : ℕ)
    → lookup id (pairs pieces ids) ≡ (if mem ids id then some (pieces id) else none)
unfolding lookup
lookup-pairs pieces [] id = refl
lookup-pairs pieces (k ∷ ids) id =
    ground (arith, ==_iff id k, ==_iff k id, lookup-pairs pieces ids id)

frag-pairs :
    (pieces : ℕ → Bytes) (ids : List ℕ) (id : ℕ)
    → mem ids id ≡ true
    → frag (pairs pieces ids) id ≡ pieces id
frag-pairs pieces ids id e = rw (lookup-pairs pieces ids id, frag) (rw e refl)

or_insert-pairs :
    (pieces : ℕ → Bytes) (ids : List ℕ) (id : ℕ)
    → mem ids id ≡ false
    → or_insert id (pieces id) (pairs pieces ids) ≡ pairs pieces (id ∷ ids)
unfolding or_insert
or_insert-pairs pieces ids id e = rw (lookup-pairs pieces ids id, or_insert) (rw e refl)

joined-pairs :
    (pieces : ℕ → Bytes) (ids : List ℕ) (i n : ℕ)
    → ((j : ℕ) → j < i + n → mem ids j ≡ true)
    → joined (pairs pieces ids) (range i n) ≡ concat_pieces pieces (range i n)
unfolding joined
joined-pairs pieces ids i zero h = refl
joined-pairs pieces ids i (suc n) h =
    rw (frag-pairs pieces ids i (h i (omega arith)))
      (ap (◌++◌ (pieces i)) (joined-pairs pieces ids (suc i) n (λ j lt. h j (omega arith))))

-- What `insert` does with a new piece, and what the frame of the session then does.
insert_frag-new :
    (head : UdpFrame) (pieces : ℕ → Bytes) (ids : List ℕ) (id : ℕ)
    → mem ids id ≡ false
    → insert_frag id (pieces id) (filled head pieces ids) ≡ (
        if leb head.frag_total (suc (length ids))
        then (
          filled head pieces (id ∷ ids),
          some (joined (pairs pieces (id ∷ ids)) (sort (id ∷ ids)), head.addr, head.port),
        )
        else (filled head pieces (id ∷ ids), none))
unfolding insert_frag
insert_frag-new head pieces ids id e =
    let plus : length ids + 1 ≡ suc (length ids) = omega arith in
    rw (or_insert-pairs pieces ids id e, sym (keys-pairs pieces (id ∷ ids)), plus) refl

relay_frame-new :
    (head : UdpFrame) (pieces : ℕ → Bytes) (ids : List ℕ) (id : ℕ) (table : Table)
    → 2 ≤ head.frag_total
    → buffer_for head table ≡ filled head pieces ids
    → mem ids id ≡ false
    → relay_frame (fragment head pieces id) table
      ≡ after_insert head.packet_id
          (if leb head.frag_total (suc (length ids))
            then (
              filled head pieces (id ∷ ids),
              some (joined (pairs pieces (id ∷ ids)) (sort (id ∷ ids)), head.addr, head.port),
            )
            else (filled head pieces (id ∷ ids), none))
          table
unfolding relay_frame
relay_frame-new head pieces ids id table two b e =
    let more : leb head.frag_total 1 ≡ false = ground arith in
    rw (more, b)
      (ap (λ r. after_insert head.packet_id r table) (insert_frag-new head pieces ids id e))

-- Before the last piece nothing is sent, and the buffer of the packet holds what came.
relay_frames-before :
    (head : UdpFrame) (pieces : ℕ → Bytes) (ids : List ℕ) (table : Table)
    → 2 ≤ head.frag_total
    → lookup head.packet_id table ≡ none
    → Distinct ids
    → length ids < head.frag_total
    → (buffer_for head (relay_frames (fragments head pieces ids) table).0 ≡ filled head pieces ids)
      × ((relay_frames (fragments head pieces ids) table).1 ≡ [])
unfolding relay_frames sent_list after_insert
relay_frames-before head pieces [] table two fresh d l = (rw (fresh, buffer_for) refl, refl)
relay_frames-before head pieces (id ∷ ids) table two fresh d l =
    let (buf, sent) = relay_frames-before head pieces ids table two fresh d.1 (omega arith) in
    let table' = (relay_frames (fragments head pieces ids) table).0 in
    let more : leb head.frag_total (suc (length ids)) ≡ false = ground arith in
    rw (relay_frame-new head pieces ids id table' two buf d.0, more, sent)
      ((
        rw (lookup-insert_self head.packet_id (filled head pieces (id ∷ ids)) table', buffer_for)
            refl,
        refl,
      ))

-- If the ids of the pieces of a packet, at least two, are given in any order, each once and below
-- `frag_total`, and the session's table holds no buffer for the packet, then relaying the frames
-- in that order sends exactly one packet, after the last of them: the pieces in the order of their
-- ids, to the address of the frames; and the table holds no buffer for the packet any more.
pub relay_frames-reassembles :
    (head : UdpFrame) (pieces : ℕ → Bytes) (ids : List ℕ) (table : Table)
    → 2 ≤ head.frag_total
    → lookup head.packet_id table ≡ none
    → Distinct ids
    → All (λ id. id < head.frag_total) ids
    → length ids ≡ head.frag_total
    → (lookup head.packet_id (relay_frames (fragments head pieces ids) table).0 ≡ none)
      × ((relay_frames (fragments head pieces ids) table).1
          ≡ record {
            target = target_of head.addr head.port;
            payload = concat_pieces pieces (range 0 head.frag_total);
          }
            ∷ [])
unfolding relay_frames sent_list after_insert
relay_frames-reassembles head pieces [] table two fresh d below l = absurd (omega arith)
relay_frames-reassembles head pieces (id ∷ ids) table two fresh d below l =
    let (buf, sent) = relay_frames-before head pieces ids table two fresh d.1 (omega arith) in
    let table' = (relay_frames (fragments head pieces ids) table).0 in
    let full : leb head.frag_total (suc (length ids)) ≡ true = ground arith in
    let (sorted, all) = sort-range head.frag_total (id ∷ ids) d below l in
    let whole = joined-pairs pieces (id ∷ ids) 0 head.frag_total (λ j lt. all j (omega arith)) in
    rw (relay_frame-new head pieces ids id table' two buf d.0, full, sent, sorted, whole)
      ((lookup-remove_self head.packet_id table', refl))
