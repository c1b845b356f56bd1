-- ===== src/Text/Net.antt =====
-- `Display` of `Ipv4Addr`, `Ipv6Addr` and `SocketAddr`.
use ruproxy.Prelude.{
  ℕ, ◌+◌, ◌-◌, ◌/◌, ◌%◌, Bool, ◌&&◌, List, [], ◌∷◌, ◌++◌, ◌==◌, ltb, take, drop, if◌then◌else◌,
}
use ruproxy.Bytes.{Bytes}
use ruproxy.Text.Number.{decimal, hex16}

-- `[u8; 4]` and `[u16; 8]`
pub record Ipv4 : Type 0 where
  pub a : ℕ
  pub b : ℕ
  pub c : ℕ
  pub d : ℕ

pub record Ipv6 : Type 0 where
  pub s0 : ℕ
  pub s1 : ℕ
  pub s2 : ℕ
  pub s3 : ℕ
  pub s4 : ℕ
  pub s5 : ℕ
  pub s6 : ℕ
  pub s7 : ℕ

pub data SocketAddr : Type 0 where
  v4 : Ipv4 → ℕ → SocketAddr
  v6 : Ipv6 → ℕ → SocketAddr

unfoldable pub ipv4_text : Ipv4 → Bytes
ipv4_text ip =
    decimal ip.a ++ (b'.' ∷ (decimal ip.b ++ (b'.' ∷ (decimal ip.c ++ (b'.' ∷ decimal ip.d)))))

abbrev pub segments : Ipv6 → List ℕ
segments ip = ip.s0 ∷ ip.s1 ∷ ip.s2 ∷ ip.s3 ∷ ip.s4 ∷ ip.s5 ∷ ip.s6 ∷ ip.s7 ∷ []

-- The first longest run of zero segments, as its start and length: `i` is the index of the next
-- segment, `n` the zeros that end before it.
zero_run : List ℕ → ℕ → ℕ → ℕ × ℕ → ℕ × ℕ
zero_run [] i n best = best
zero_run (x ∷ xs) i n best =
    let m : ℕ = (if x == 0 then n + 1 else 0) in
    zero_run xs (i + 1) m (if ltb best.1 m then (i + 1 - m, m) else best)

joined : List ℕ → Bytes
joined [] = []
joined (x ∷ []) = hex16 x
joined (x ∷ y ∷ r) = hex16 x ++ (b':' ∷ joined (y ∷ r))

compressed : List ℕ → ℕ × ℕ → Bytes
compressed xs (start, n) =
    if ltb 1 n
    then joined (take start xs) ++ (b':' ∷ b':' ∷ joined (drop (start + n) xs))
    else joined xs

is_mapped : Ipv6 → Bool
is_mapped ip = ip.s0 == 0 && ip.s1 == 0 && ip.s2 == 0 && ip.s3 == 0 && ip.s4 == 0 && ip.s5 == 0xffff

mapped_part : Ipv6 → Ipv4
mapped_part ip = record { a = ip.s6 / 256; b = ip.s6 % 256; c = ip.s7 / 256; d = ip.s7 % 256 }

unfoldable pub ipv6_text : Ipv6 → Bytes
unfolding zero_run joined compressed is_mapped mapped_part
ipv6_text ip =
    if is_mapped ip
    then b':' ∷ b':' ∷ b'f' ∷ b'f' ∷ b'f' ∷ b'f' ∷ b':' ∷ ipv4_text (mapped_part ip)
    else compressed (segments ip) (zero_run (segments ip) 0 0 (0, 0))

unfoldable pub socket_addr_text : SocketAddr → Bytes
socket_addr_text (v4 ip port) = ipv4_text ip ++ (b':' ∷ decimal port)
socket_addr_text (v6 ip port) = b'[' ∷ (ipv6_text ip ++ (b']' ∷ b':' ∷ decimal port))
