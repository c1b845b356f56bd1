-- ===== src/Xhttp/Stream.antt =====
-- `XhttpStream` of src/common/transport/xhttp.rs: the read side, which puts numbered packets in order.
pub mod Heap
pub mod Order
pub mod Stale
use ruproxy.Bytes.{Bytes}
use ruproxy.Prelude.{
  ℕ, zero, suc, ◌+◌, ◌-◌, ◌*◌, ◌/◌, ◌%◌, ◌^◌, ◌≤◌, ◌<◌, ◌≡◌, ◌≢◌, refl, sym, ap, ap₂, ◌∙◌, subst,
  Bool, true, false, not, ◌&&◌, ◌||◌, Option, none, some, List, [], ◌∷◌, ◌++◌, ◌==◌, ltb, leb,
  length, take, drop, get_or, if◌then◌else◌, arith, All, ◌⊎◌, inl, inr, min, max, bit_and, bit_or,
  bit_xor, ◌↔◌, append_assoc, append-nil, length-append, Bool-cases,
}

pub record PktEntry : Type 0 where
  pub seq : ℕ
  pub data' : Bytes

pub data UploadPacket : Type 0 where
  chunk : Bytes → UploadPacket
  numbered : PktEntry → UploadPacket
  finish : UploadPacket

-- The receiver of a channel: what was sent and not yet received, and whether every sender is gone.
pub record Receiver : Type 0 where
  pub queue : List UploadPacket
  pub closed : Bool

-- `XhttpStream` with its `PktQueue`.
pub record XhttpStream : Type 0 where
  pub up_rx : Receiver
  pub heap : List PktEntry
  pub next_seq : ℕ
  pub leftover : Bytes
  pub stream_buf : Bytes
  pub eof : Bool

-- `XhttpStream::new`
abbrev pub new_stream : Receiver → XhttpStream
new_stream up_rx = record {
  up_rx = up_rx;
  heap = [];
  next_seq = 0;
  leftover = [];
  stream_buf = [];
  eof = false;
}

-- `heap.peek()` and `heap.pop()`: an entry with the least number, and the others. Of entries with the
-- same number BinaryHeap may take any; here it is the one that was pushed last.
unfoldable pub pop : List PktEntry → Option (PktEntry × List PktEntry)
pop [] = none
pop (e ∷ es) = elim (pop es) [
  | none ↦ some (e, [])
  | some (least, others) ↦ if leb e.seq least.seq then some (e, es) else some (least, e ∷ others)
]

pub data Poll : Type 0 where
  pending : Poll
  ready : Bytes → Poll

-- What the channel gives.
abbrev pub pushed : PktEntry → XhttpStream → XhttpStream
pushed e s = record s { heap = e ∷ s.heap }

abbrev pub ended : XhttpStream → XhttpStream
ended s = record s { eof = true }

-- The entry at the front of the heap, if it is the next one.
unfoldable pub pop_next : XhttpStream → Option (PktEntry × List PktEntry)
pop_next s = elim (pop s.heap) [
  | none ↦ none
  | some (top, others) ↦ if top.seq == s.next_seq then some (top, others) else none
]

-- `poll_read` into a buffer with room for `n` bytes: each round of the loop but the last takes one
-- packet off the channel, so `fuel` above the count of those in it is enough.
unfoldable pub poll_read : ℕ → ℕ → XhttpStream → Poll × XhttpStream
poll_read zero n s = (pending, s)
poll_read (suc fuel) n s =
    if not (length s.leftover == 0)
    then (ready (take n s.leftover), record s { leftover = drop n s.leftover })
    else if not (length s.stream_buf == 0)
    then (ready (take n s.stream_buf), record s { stream_buf = drop n s.stream_buf })
    else elim (pop_next s) [
      | some (entry, others) ↦ (
        ready (take n entry.data'),
        record s {
          heap = others;
          leftover = drop n entry.data';
          next_seq = (s.next_seq + 1) % 2 ^ 64;
        },
      )
      | none ↦ if s.eof then (ready [], s) else elim s.up_rx.queue [
        | [] ↦ if s.up_rx.closed then (ready [], ended s) else (pending, s)
        | p ∷ rest ↦
            let t : XhttpStream = record s { up_rx = record s.up_rx { queue = rest } } in
            elim p [
              | chunk d ↦ (ready (take n d), record t { stream_buf = drop n d })
              | numbered e ↦ poll_read fuel n (pushed e t)
              | finish ↦ (ready [], ended t)
            ]
      ]
    ]

-- `poll_read` with fuel for every packet in the channel.
abbrev pub read : ℕ → XhttpStream → Poll × XhttpStream
read n s = poll_read (suc (length s.up_rx.queue)) n s

-- What a reader has, if it stops where no byte comes or it has to wait.
abbrev pub got : Poll → Bytes → Bytes
got pending rest = []
got (ready d) rest = if length d == 0 then [] else d ++ rest

-- A reader that goes on until the stream gives no byte or has to wait, at most `rounds` times.
unfoldable pub read_all : ℕ → ℕ → XhttpStream → Bytes
read_all zero n s = []
read_all (suc rounds) n s = let r = read n s in got r.0 (read_all rounds n r.1)
