-- ===== src/Tests/Xhttp.antt =====
-- The theorems on src/common/transport/xhttp.rs, at concrete inputs.
use ruproxy.Bytes.{Bytes}
use ruproxy.Prelude.{ℕ, zero, suc, ◌≡◌, refl, true, false, [], ◌∷◌, arith, ◌<◌, length}
use ruproxy.Xhttp.Stream.{new_stream, read_all, poll_read}
use ruproxy.Xhttp.Stream.Order.{read_all-packets}
use ruproxy.Xhttp.Stream.Heap.{packets, pkt}
use ruproxy.Xhttp.Stream.Stale.{poll_read-old, StaysStuck, waiting}

abbrev pieces : ℕ → Bytes
pieces zero = 10 ∷ 11 ∷ 12 ∷ []
pieces (suc zero) = 20 ∷ []
pieces (suc (suc j)) = 30 ∷ 31 ∷ []

pieces-full : (j : ℕ) → 0 < length (pieces j)
pieces-full zero = omega arith
pieces-full (suc zero) = omega arith
pieces-full (suc (suc j)) = omega arith

read_all-packets_example :
    read_all 8 2 (new_stream (record { queue = packets pieces (2 ∷ 0 ∷ 1 ∷ []); closed = true }))
    ≡ 10 ∷ 11 ∷ 12 ∷ 20 ∷ 30 ∷ 31 ∷ []
read_all-packets_example =
    read_all-packets pieces (2 ∷ 0 ∷ 1 ∷ []) 3 2 8 (refl, (refl, (refl, tt)))
      (omega arith, (omega arith, (omega arith, tt))) refl (omega arith) (λ j _. pieces-full j)
      (omega arith) (omega arith)

-- Packet 0 comes again while packet 1 is awaited; packet 1 then comes too late.
poll_read-old_example :
    StaysStuck 1
      (poll_read 3 8 (waiting 1 (pkt pieces 0 ∷ []) (packets pieces (1 ∷ [])) true false))
poll_read-old_example =
    poll_read-old 3 8 1 (pkt pieces 0 ∷ []) (packets pieces (1 ∷ [])) true false refl tt
