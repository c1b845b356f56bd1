-- ===== src/Xhttp/Down.antt =====
-- The write side of `XhttpStream` of src/common/transport/xhttp.rs, and the body of its answer.
use ruproxy.Bytes.{Bytes}
use ruproxy.Prelude.{ℕ, Bool, List, [], ◌∷◌, ◌++◌, ltb, length, if◌then◌else◌}

-- The channel from the stream to the answer: what was sent and not yet received, and whether the
-- answer, or the stream, is gone.
pub record DownChannel : Type 0 where
  pub queue : List Bytes
  pub receiver_gone : Bool
  pub sender_gone : Bool

pub data PollWrite : Type 0 where
  write_pending broken_pipe : PollWrite
  written : ℕ → PollWrite

-- `poll_write`: a buffer is sent whole, if the channel of 64 has room.
abbrev pub poll_write : Bytes → DownChannel → PollWrite × DownChannel
poll_write buf c =
    if c.receiver_gone
    then (broken_pipe, c)
    else if ltb (length c.queue) 64
    then (written (length buf), record c { queue = c.queue ++ (buf ∷ []) })
    else (write_pending, c)

-- `poll_frame` of a body that is a stream: pending, the end, or the next data.
pub data PollFrame : Type 0 where
  frame_pending body_end : PollFrame
  frame : Bytes → PollFrame

abbrev pub poll_frame : DownChannel → PollFrame × DownChannel
poll_frame c = elim c.queue [
  | [] ↦ (if c.sender_gone then body_end else frame_pending, c)
  | d ∷ rest ↦ (frame d, record c { queue = rest })
]
