-- ===== src/Hysteria2/Fragments.antt =====
-- Reassembly of fragmented UDP packets from a client: `FragBuffer` and `relay_frame` of
-- src/hysteria2/proxy.rs.
pub mod Reassembly
pub mod Duplicates
use ruproxy.Prelude.{
  ℕ, zero, suc, ◌+◌, ◌-◌, ◌*◌, ◌/◌, ◌%◌, ◌^◌, ◌≤◌, ◌<◌, ◌≡◌, ◌≢◌, refl, sym, ap, ap₂, ◌∙◌, subst,
  Bool, true, false, not, ◌&&◌, ◌||◌, Option, none, some, List, [], ◌∷◌, ◌++◌, ◌==◌, ltb, leb,
  length, take, drop, get_or, if◌then◌else◌, arith, All, ◌⊎◌, inl, inr, min, max, bit_and, bit_or,
  bit_xor, ◌↔◌, append_assoc, append-nil, length-append, Bool-cases,
}
use ruproxy.Bytes.{Bytes}
use ruproxy.Map.{Map, lookup, insert, remove, nat_eq}
use ruproxy.Text.{decimal}
use ruproxy.Ids.{sort}
use ruproxy.Hysteria2.Frame.{UdpFrame}

pub record FragBuffer : Type 0 where
  pub total : ℕ
  pub received : ℕ
  pub frags : Map ℕ Bytes
  pub addr : Bytes
  pub port : ℕ

abbrev pub new : ℕ → Bytes → ℕ → FragBuffer
new total addr port = record { total = total; received = 0; frags = []; addr = addr; port = port }

abbrev pub keys : Map ℕ Bytes → List ℕ
keys [] = []
keys ((k, v) ∷ m) = k ∷ keys m

-- `self.frags[id]`; the ids are those of the map, so the index is never out of it.
abbrev pub frag : Map ℕ Bytes → ℕ → Bytes
frag m id = elim (lookup id m) [ none ↦ [] | some p ↦ p ]

unfoldable pub joined : Map ℕ Bytes → List ℕ → Bytes
joined m [] = []
joined m (id ∷ ids) = frag m id ++ joined m ids

-- `entry(id).or_insert(payload)`
unfoldable pub or_insert : ℕ → Bytes → Map ℕ Bytes → Map ℕ Bytes
or_insert id payload m = elim (lookup id m) [ some old ↦ m | none ↦ (id, payload) ∷ m ]

-- `FragBuffer::insert`: the packet, once as many fragments came as it has. The counter is a u8: it
-- stays at most `total`, which is one, since the buffer goes when it is reached.
unfoldable pub insert_frag : ℕ → Bytes → FragBuffer → FragBuffer × Option (Bytes × Bytes × ℕ)
unfolding or_insert
insert_frag id payload buf =
    let frags' = or_insert id payload buf.frags in
    let buf' = record buf { frags = frags'; received = buf.received + 1 } in
    if leb buf.total (buf.received + 1)
    then (buf', some (joined frags' (sort (keys frags')), buf.addr, buf.port))
    else (buf', none)

-- A packet that is sent on, with its target `host:port`.
pub record Sent : Type 0 where
  pub target : Bytes
  pub payload : Bytes

abbrev pub target_of : Bytes → ℕ → Bytes
target_of addr port = addr ++ (b':' ∷ decimal port)

abbrev pub Table : Type 0
Table = Map ℕ FragBuffer

unfoldable pub after_insert :
    ℕ → FragBuffer × Option (Bytes × Bytes × ℕ) → Table → Table × Option Sent
after_insert packet_id (buf, none) table = (insert packet_id buf table, none)
after_insert packet_id (buf, some (whole, addr, port)) table =
    (remove packet_id table, some (record { target = target_of addr port; payload = whole }))

-- `entry(packet_id).or_insert_with(...)`
abbrev pub buffer_for : UdpFrame → Table → FragBuffer
buffer_for frame table = elim (lookup frame.packet_id table) [
  | some b ↦ b
  | none ↦ new frame.frag_total frame.addr frame.port
]

-- `relay_frame`: the fragment table of the session, and the packet that `send_to` gets.
unfoldable pub relay_frame : UdpFrame → Table → Table × Option Sent
unfolding after_insert
relay_frame frame table =
    if leb frame.frag_total 1
    then (
      table,
      some (record { target = target_of frame.addr frame.port; payload = frame.payload }),
    )
    else let buf = buffer_for frame table in
      after_insert frame.packet_id (insert_frag frame.frag_id frame.payload buf) table

unfoldable pub sent_list : Option Sent → List Sent
sent_list none = []
sent_list (some s) = s ∷ []

-- `relay_frame` on each frame that came, the last one first, and the packets sent, likewise.
unfoldable pub relay_frames : List UdpFrame → Table → Table × List Sent
unfolding sent_list
relay_frames [] table = (table, [])
relay_frames (frame ∷ earlier) table =
    let rest = relay_frames earlier table in
    let now = relay_frame frame rest.0 in (now.0, sent_list now.1 ++ rest.1)
