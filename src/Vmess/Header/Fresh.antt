-- ===== src/Vmess/Header/Fresh.antt =====
-- How old a request of src/vmess/mod.rs can be: the times that `validate_auth_id` lets in.
use ruproxy.Bytes.{Bytes, be_onto}
use ruproxy.Io.{ok, from_step, read_exact, lift, lift_inv, read_exact_inv}
use ruproxy.Vmess.Crypto.Salts.{kdf_auth_id}
use ruproxy.Vmess.Header.{validate_auth_id, stale, decode_request_header, VmessRequest}
use ruproxy.Vmess.Crypto.{Crates, kdf16}
use ruproxy.Prelude.{
  ℕ, ◌+◌, ◌%◌, ◌^◌, ◌≤◌, ◌<◌, ◌≡◌, sym, ap, subst, ◌∙◌, false, [], ◌∷◌, ◌++◌, length, take, drop,
  arith, ◌⊎◌, take-append, ==_iff,
}

-- The auth id in plain, and the word of 64 bits in it that is the client's time.
abbrev pub plain_id : Crates → Bytes → Bytes → Bytes
plain_id c cmd_key auth_id = c.aes_block_decrypt (kdf16 c cmd_key (kdf_auth_id ∷ [])) auth_id

abbrev pub time_of : Bytes → ℕ
time_of plain = be_onto 0 (take 8 plain) % 2 ^ 64

abbrev pub HasChecksum : Crates → Bytes → Type 0
HasChecksum c plain = c.crc32 (take 12 plain) ≡ be_onto 0 (take 4 (drop 12 plain))

-- A time within two minutes of the clock, or the one at which the difference overflows.
abbrev pub IsFresh : ℕ → ℕ → Type 0
IsFresh ts now = ((ts ≤ now + 120) × (now ≤ ts + 120)) ⊎ (ts ≡ now + 2 ^ 63)

stale-IsFresh :
    (ts now : ℕ) → 120 ≤ now → now < 2 ^ 63 → stale ts now ≡ false → IsFresh (ts % 2 ^ 64) now
stale-IsFresh ts now low high h = ground arith

stale-apart :
    (ts now later : ℕ)
    → now < 2 ^ 62
    → later < 2 ^ 62
    → stale ts now ≡ false
    → stale ts later ≡ false
    → later ≤ now + 240
stale-apart ts now later small small' h k = ground arith

-- A request starts with an auth id that was valid.
module _ (c : Crates) (now : ℕ) (cmd_key s : Bytes) {r : VmessRequest} {rest : Bytes}
    (h : decode_request_header c now cmd_key s ≡ ok (r, rest)) where
  decode_request_header-auth_id :
      (auth_id tail : Bytes) × (s ≡ auth_id ++ tail)
      × (length auth_id ≡ 16)
      × HasChecksum c (plain_id c cmd_key auth_id)
      × (stale (be_onto 0 (take 8 (plain_id c cmd_key auth_id))) now ≡ false)
  unfolding decode_request_header validate_auth_id
  decode_request_header-auth_id = from_step (read_exact 16 s) h λ auth_id s1 read1 h1.
      from_step (lift (validate_auth_id c now auth_id cmd_key) s1) h1 λ u s2 v h2.
        let (valid, same) = lift_inv (validate_auth_id c now auth_id cmd_key) s1 v in
        let (split, size) = read_exact_inv 16 s read1 in
        let plain = plain_id c cmd_key auth_id in
        let crc = c.crc32 (take 12 plain) in
        let stored = be_onto 0 (take 4 (drop 12 plain)) in
        (auth_id, s1, split, size, ground (arith, valid, ==_iff crc stored), ground (arith, valid))

-- A request is accepted only if it starts with an auth id whose block, decrypted, has the checksum
-- of its first twelve bytes and a time that is at most 120 seconds before or after the clock, or
-- exactly 2^63 after it, where the difference overflows; the clock is from 120 seconds to 2^63.
pub decode_request_header-IsFresh :
    (c : Crates) (now : ℕ) (cmd_key s : Bytes) {r : VmessRequest} {rest : Bytes}
    → 120 ≤ now
    → now < 2 ^ 63
    → decode_request_header c now cmd_key s ≡ ok (r, rest)
    → (auth_id tail : Bytes) × (s ≡ auth_id ++ tail)
      × (length auth_id ≡ 16)
      × HasChecksum c (plain_id c cmd_key auth_id)
      × IsFresh (time_of (plain_id c cmd_key auth_id)) now
decode_request_header-IsFresh c now cmd_key s low high h =
    let (auth_id, tail, split, size, check, fresh) =
      decode_request_header-auth_id c now cmd_key s h in
    (
      auth_id,
      tail,
      split,
      size,
      check,
      stale-IsFresh (be_onto 0 (take 8 (plain_id c cmd_key auth_id))) now low high fresh,
    )

-- If requests with the same auth id are accepted at two times, then these are at most 240 seconds
-- apart, so what was recorded of a client is refused later; the clocks are below 2^62.
pub decode_request_header-replay :
    (c : Crates) (now later : ℕ) (cmd_key s s' : Bytes) {r r' : VmessRequest} {rest rest' : Bytes}
    → now < 2 ^ 62
    → later < 2 ^ 62
    → take 16 s ≡ take 16 s'
    → decode_request_header c now cmd_key s ≡ ok (r, rest)
    → decode_request_header c later cmd_key s' ≡ ok (r', rest')
    → (later ≤ now + 240) × (now ≤ later + 240)
decode_request_header-replay c now later cmd_key s s' small small' same h k =
    let (a, t, split, size, check, fresh) = decode_request_header-auth_id c now cmd_key s h in
    let (b, u, split', size', check', fresh') =
      decode_request_header-auth_id c later cmd_key s' k in
    let ids : a ≡ b =
      sym (take-append 16 a t size)
      ∙ ap (take 16) (sym split)
      ∙ same
      ∙ ap (take 16) split'
      ∙ take-append 16 b u size' in
    let ts = be_onto 0 (take 8 (plain_id c cmd_key b)) in
    let fresh_b : stale ts now ≡ false =
      subst (λ x. stale (be_onto 0 (take 8 (plain_id c cmd_key x))) now ≡ false) ids fresh in
    (
      stale-apart ts now later small small' fresh_b fresh',
      stale-apart ts later now small' small fresh' fresh_b,
    )
