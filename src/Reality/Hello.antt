-- ===== src/Reality/Hello.antt =====
-- What src/vless/tls/reality.rs reads from a ClientHello: the cipher suites and the key share. The
-- loops run on fuel, one unit for each byte of what they read; every round takes at least four.
pub mod Parts
pub mod Shares
pub mod Extensions
pub mod Suites
pub mod Fuel
use ruproxy.Prelude.{
  ℕ, zero, suc, ◌+◌, ◌-◌, ◌*◌, Bool, true, false, not, ◌&&◌, ◌||◌, Option, none, some, [], ◌∷◌,
  ◌==◌, ltb, leb, length, take, drop, get_or, if◌then◌else◌, min,
}
use ruproxy.Bytes.{Bytes, be16}
use ruproxy.Io.{
  Result, ok, err, or_fault, hello_truncated, extension_bounds, no_key_share, key_share_short,
  key_share_bounds, no_x25519,
}

abbrev pub sid_offset : ℕ
sid_offset = 44

-- `u16::from_be_bytes([d[i], d[i + 1]])`
abbrev pub u16_at : Bytes → ℕ → ℕ
u16_at d i = be16 (get_or d i 0) (get_or d (i + 1) 0)

-- `d[i..i + n]`
abbrev pub slice : Bytes → ℕ → ℕ → Bytes
slice d i n = take n (drop i d)

abbrev pub is_aes_suite : ℕ → Bool
is_aes_suite s =
    s == 0x1301
    || s == 0x1302
    || s == 0x009c
    || s == 0x009d
    || s == 0xc02b
    || s == 0xc02c
    || s == 0xc02f
    || s == 0xc030

abbrev pub is_chacha_suite : ℕ → Bool
is_chacha_suite s = s == 0x1303 || s == 0xcca8 || s == 0xcca9

-- The loop over the suites from `i` on.
unfoldable pub suites_from : ℕ → Bytes → ℕ → ℕ → Bool
suites_from zero record' end i = true
suites_from (suc fuel) record' end i =
    let rest = suites_from fuel record' end (i + 2) in
    if leb end (i + 1)
    then true
    else if is_aes_suite (u16_at record' i)
    then true
    else if is_chacha_suite (u16_at record' i)
    then false
    else rest

unfoldable pub cipher_suite_prefers_aes : Bytes → Bool
cipher_suite_prefers_aes record' =
    let pos : ℕ = sid_offset + 32 in
    let cs_len : ℕ = u16_at record' pos in
    if ltb (length record') (pos + 2)
    then true
    else if ltb (length record') (pos + 2 + cs_len) || ltb cs_len 2
    then true
    else suites_from (length record') record' (pos + 2 + cs_len) (pos + 2)

abbrev pub group_x25519 : ℕ
group_x25519 = 0x001d

abbrev pub group_x25519mlkem768 : ℕ
group_x25519mlkem768 = 0x11ec

-- The loop over the entries, with the key found at the end of an X25519MLKEM768 entry.
unfoldable pub shares_from : ℕ → Bytes → ℕ → ℕ → Option Bytes → Result Bytes
shares_from zero d end pos mlkem = or_fault no_x25519 mlkem
shares_from (suc fuel) d end pos mlkem =
    let group : ℕ = u16_at d pos in
    let ke_len : ℕ = u16_at d (pos + 2) in
    let found : Option Bytes =
      (if group == group_x25519mlkem768 && leb 1120 ke_len
        then some (slice d (pos + 4 + (ke_len - 32)) 32)
        else mlkem) in
    let rest = shares_from fuel d end (pos + 4 + ke_len) found in
    if ltb end (pos + 4)
    then or_fault no_x25519 mlkem
    else if ltb end (pos + 4 + ke_len)
    then err key_share_bounds
    else if group == group_x25519 && ke_len == 32
    then ok (slice d (pos + 4) 32)
    else rest

unfoldable pub parse_x25519_key_share : Bytes → Result Bytes
parse_x25519_key_share d =
    if ltb (length d) 2
    then err key_share_short
    else shares_from (length d) d (min (2 + u16_at d 0) (length d)) 2 none

abbrev pub ext_key_share : ℕ
ext_key_share = 0x0033

-- The loop over the extensions.
unfoldable pub extensions_from : ℕ → Bytes → ℕ → ℕ → Result Bytes
extensions_from zero record' ext_end pos = err no_key_share
extensions_from (suc fuel) record' ext_end pos =
    let ext_type : ℕ = u16_at record' pos in
    let ext_len : ℕ = u16_at record' (pos + 2) in
    let rest = extensions_from fuel record' ext_end (pos + 4 + ext_len) in
    if ltb ext_end (pos + 4)
    then err no_key_share
    else if ltb ext_end (pos + 4 + ext_len)
    then err extension_bounds
    else if ext_type == ext_key_share
    then parse_x25519_key_share (slice record' (pos + 4) ext_len)
    else rest

-- The extensions, whose total length stands at `pos`.
unfoldable pub read_extensions : Bytes → ℕ → Result Bytes
read_extensions record' pos =
    let ext_end : ℕ = pos + 2 + u16_at record' pos in
    if ltb (length record') (pos + 2)
    then err hello_truncated
    else if ltb (length record') ext_end
    then err extension_bounds
    else extensions_from (length record') record' ext_end (pos + 2)

-- Behind the cipher suites, which end at `pos`: the compression methods.
unfoldable pub skip_compression : Bytes → ℕ → Result Bytes
skip_compression record' pos =
    if ltb (length record') (pos + 1)
    then err hello_truncated
    else read_extensions record' (pos + 1 + get_or record' pos 0)

unfoldable pub extract_x25519_from_key_share : Bytes → Result Bytes
extract_x25519_from_key_share record' =
    let pos : ℕ = sid_offset + 32 in
    if ltb (length record') (pos + 2)
    then err hello_truncated
    else skip_compression record' (pos + 2 + u16_at record' pos)
