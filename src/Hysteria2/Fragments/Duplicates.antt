-- ===== src/Hysteria2/Fragments/Duplicates.antt =====
-- Fragments that come twice: `FragBuffer::insert` of src/hysteria2/proxy.rs counts them again.
use ruproxy.Bytes.{Bytes}
use ruproxy.Hysteria2.Frame.{UdpFrame}
use ruproxy.Prelude.{
  ℕ, zero, suc, ◌+◌, ◌≤◌, ◌<◌, ◌≡◌, refl, true, false, Option, none, some, [], ◌∷◌, leb,
  if◌then◌else◌, arith, append-nil, replicate, ==_refl,
}
use ruproxy.Hysteria2.Fragments.{
  FragBuffer, new, frag, joined, or_insert, insert_frag, relay_frame, relay_frames, after_insert,
  sent_list, buffer_for, Table, target_of,
}
use ruproxy.Ids.{sort, insert_sorted}
use ruproxy.Map.{nat_eq, lookup, lookup-insert_self}

-- The buffer after `m` copies of one fragment.
abbrev repeated : UdpFrame → ℕ → FragBuffer
repeated frame zero = new frame.frag_total frame.addr frame.port
repeated frame (suc m) = record {
  total = frame.frag_total;
  received = suc m;
  frags = (frame.frag_id, frame.payload) ∷ [];
  addr = frame.addr;
  port = frame.port;
}

-- What the `m`-th copy does.
copied : UdpFrame → ℕ → FragBuffer × Option (Bytes × Bytes × ℕ)
copied frame m =
    if leb frame.frag_total (suc m)
    then (repeated frame (suc m), some (frame.payload, frame.addr, frame.port))
    else (repeated frame (suc m), none)

or_insert-again :
    (frame : UdpFrame) (m : ℕ)
    → or_insert frame.frag_id frame.payload (repeated frame m).frags
      ≡ (repeated frame (suc m)).frags
unfolding or_insert lookup
or_insert-again frame zero = refl
or_insert-again frame (suc m) = rw (==_refl frame.frag_id, or_insert) refl

joined-one :
    (frame : UdpFrame)
    → joined ((frame.frag_id, frame.payload) ∷ []) (sort (frame.frag_id ∷ [])) ≡ frame.payload
unfolding joined sort insert_sorted lookup
joined-one frame = rw (==_refl frame.frag_id, frag) (append-nil frame.payload)

insert_frag-again :
    (frame : UdpFrame) (m : ℕ)
    → insert_frag frame.frag_id frame.payload (repeated frame m) ≡ copied frame m
unfolding insert_frag copied
insert_frag-again frame zero = rw (or_insert-again frame zero, joined-one frame) refl
insert_frag-again frame (suc m) =
    let plus : suc m + 1 ≡ suc (suc m) = omega arith in
    rw (or_insert-again frame (suc m), joined-one frame, plus) refl

relay_frame-again :
    (frame : UdpFrame) (m : ℕ) (table : Table)
    → 2 ≤ frame.frag_total
    → buffer_for frame table ≡ repeated frame m
    → relay_frame frame table ≡ after_insert frame.packet_id (copied frame m) table
unfolding relay_frame
relay_frame-again frame m table two b =
    let more : leb frame.frag_total 1 ≡ false = ground arith in
    rw (more, b, insert_frag-again frame m) refl

relay_frames-copies :
    (frame : UdpFrame) (m : ℕ) (table : Table)
    → 2 ≤ frame.frag_total
    → lookup frame.packet_id table ≡ none
    → m < frame.frag_total
    → (buffer_for frame (relay_frames (replicate m frame) table).0 ≡ repeated frame m)
      × ((relay_frames (replicate m frame) table).1 ≡ [])
unfolding relay_frames sent_list after_insert copied
relay_frames-copies frame zero table two fresh l = (rw (fresh, buffer_for) refl, refl)
relay_frames-copies frame (suc m) table two fresh l =
    let (buf, sent) = relay_frames-copies frame m table two fresh (omega arith) in
    let table' = (relay_frames (replicate m frame) table).0 in
    let more : leb frame.frag_total (suc m) ≡ false = ground arith in
    rw (relay_frame-again frame m table' two buf, more, sent)
      ((
        rw (lookup-insert_self frame.packet_id (repeated frame (suc m)) table', buffer_for) refl,
        refl,
      ))

-- If a packet is announced in `n` fragments, at least two, and the session's table holds no buffer
-- for it, then `n` copies of one of its fragments send a packet whose payload is that fragment's
-- alone: copies count as if they were the missing fragments.
pub relay_frames-replicate :
    (frame : UdpFrame) (n : ℕ) (table : Table)
    → 2 ≤ n
    → frame.frag_total ≡ n
    → lookup frame.packet_id table ≡ none
    → (relay_frames (replicate n frame) table).1
      ≡ record { target = target_of frame.addr frame.port; payload = frame.payload } ∷ []
unfolding relay_frames sent_list after_insert copied
relay_frames-replicate frame zero table two total fresh = absurd (omega arith)
relay_frames-replicate frame (suc m) table two total fresh =
    let at_least : 2 ≤ frame.frag_total = omega arith in
    let (buf, sent) = relay_frames-copies frame m table at_least fresh (omega arith) in
    let table' = (relay_frames (replicate m frame) table).0 in
    let full : leb frame.frag_total (suc m) ≡ true = ground arith in
    rw (relay_frame-again frame m table' at_least buf, full, sent) refl
