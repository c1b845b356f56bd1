-- ===== src/Vmess/Body/Chunk.antt =====
-- One chunk of src/vmess/mod.rs: what `relay_down` writes in a round, `relay_up` reads in a round.
use ruproxy.Bits.Xor.{bit_xor-lt, bit_xor_twice}
use ruproxy.Vmess.Crypto.Laws.{Documented, length-chunk_nonce, length-chacha_key}
use ruproxy.Bytes.{Bytes, IsU16, u16_bytes, be16}
use ruproxy.Vmess.Crypto.{Shake128Reader, Crates, next_u16, chunk_nonce, chacha_key}
use ruproxy.Vmess.Body.{
  fill_bytes, sec_none, Link, sec_aes128_gcm, sec_auto, next_pad, seal_chunk, has_flag,
  sec_chacha20, read_sealed, opt_global_padding, down_chunk, size_field, read_size, up_chunk,
  opt_auth_len, counted, chunk_size, up_body,
}
use ruproxy.Io.{read_u16, read_exact, ok, read_exact-append}
use ruproxy.Prelude.{
  ℕ, zero, suc, ◌+◌, ◌-◌, ◌/◌, ◌%◌, ◌^◌, ◌≤◌, ◌<◌, ◌≡◌, refl, ap, ◌∙◌, Bool, true, false, ◌||◌,
  Option, none, some, [], ◌++◌, ◌==◌, length, if◌then◌else◌, arith, inl, inr, bit_xor, append_assoc,
  length-append, Bool-cases, Option-cases, le→leb, ne→==,
}

-- The kinds of security that both sides know.
abbrev pub is_known : ℕ → Bool
is_known sec = sec == sec_none || (sec == sec_aes128_gcm || sec == sec_auto) || sec == sec_chacha20

abbrev pub link : Option Shake128Reader → ℕ → Link
link shake count = record { shake = shake; count = count }

fill_bytes-length : (random : ℕ → ℕ) (n : ℕ) → length (fill_bytes random n) ≡ n
fill_bytes-length random zero = refl
fill_bytes-length random (suc n) = ap suc (fill_bytes-length random n)

read_u16-u16_bytes :
    (v : ℕ) (rest : Bytes) → IsU16 v → read_u16 (u16_bytes v ++ rest) ≡ ok (v, rest)
unfolding read_u16 read_exact
read_u16-u16_bytes v rest h =
    let same : be16 (v / 256 % 256) (v % 256) ≡ v = omega arith in ap (λ x. ok (x, rest)) same

module _ (c : Crates) (laws : Documented c) (key iv : Bytes) (opt sec : ℕ) where
  -- The ciphertext of `plain`: it is not empty unless `plain` is, and it is opened again.
  abbrev IsSealed : Bytes → ℕ → Bytes → Type 0
  IsSealed plain count ct =
      (seal_chunk c key iv opt sec plain count ≡ ok ct)
      × (length ct ≤ length plain + 16)
      × (length ct ≡ 0 → length plain ≡ 0)
      × ((rest : Bytes)
          → read_sealed c key iv opt sec (length ct) count (ct ++ rest) ≡ ok (plain, rest))

  pub seal_chunk-IsSealed :
      (plain : Bytes) (count : ℕ)
      → is_known sec ≡ true
      → length key ≡ 16
      → length iv ≡ 16
      → length plain < 2 ^ 32
      → (ct : Bytes) × IsSealed plain count ct
  unfolding seal_chunk read_sealed
  seal_chunk-IsSealed plain count known k i small =
      let nonce = length-chunk_nonce iv count i in
      elim (Bool-cases (sec == sec_none)) [
        | inl is_none ↦ (
          plain,
          (
            rw is_none refl,
            omega arith,
            λ e. e,
            λ rest. rw is_none (read_exact-append (length plain) plain rest refl),
          ),
        )
        | inr sealed ↦ elim (Bool-cases (sec == sec_aes128_gcm || sec == sec_auto)) [
          | inl is_aes ↦
              let (ct, enc, size, dec) =
                laws.aes key (chunk_nonce iv count) plain [] k nonce small in
              (
                ct,
                (
                  rw (sealed, is_aes, enc) refl,
                  omega arith,
                  λ e. omega arith,
                  λ rest.
                      rw (sealed, is_aes, le→leb 16 (length ct) (omega arith))
                        (rw (read_exact-append (length ct) ct rest refl) (rw dec refl)),
                ),
              )
          | inr other ↦
              let is_chacha : (sec == sec_chacha20) ≡ true = ground (arith, known, sealed, other) in
              let (ct, enc, size, dec) =
                laws.chacha (chacha_key c key) (chunk_nonce iv count) plain
                  (length-chacha_key c laws key) nonce small in
              (
                ct,
                (
                  rw (sealed, other, is_chacha, enc) refl,
                  omega arith,
                  λ e. omega arith,
                  λ rest.
                      rw (sealed, other, is_chacha, le→leb 16 (length ct) (omega arith))
                        (rw (read_exact-append (length ct) ct rest refl) (rw dec refl)),
                ),
              )
        ]
      ]

  -- The size field takes the next number of the mask, on either side.
  abbrev masked : Option Shake128Reader → Option Shake128Reader
  masked none = none
  masked (some sk) = some (next_u16 c sk).1

  abbrev ReadsSize : ℕ → ℕ → Option Shake128Reader → Bytes → Type 0
  ReadsSize total count shake field =
      (2 ≤ length field)
      × (size_field c key iv opt sec total (counted (link shake count))
          ≡ ok (field, counted (link (masked shake) count)))
      × ((rest : Bytes)
          → read_size c key iv opt sec (link shake count) (field ++ rest)
            ≡ ok ((total, link (masked shake) count), rest))

  size_field-ReadsSize :
      (total count : ℕ) (shake : Option Shake128Reader)
      → has_flag opt opt_auth_len ≡ false
      → IsU16 total
      → (field : Bytes) × ReadsSize total count shake field
  unfolding size_field read_size
  size_field-ReadsSize total count none plain t = (
    u16_bytes total,
    (omega arith, rw plain refl, λ rest. rw plain (rw (read_u16-u16_bytes total rest t) refl)),
  )
  size_field-ReadsSize total count (some sk) plain t =
      let mask = c.shake128 sk.seed sk.taken in
      let m = laws.shake_size sk.seed sk.taken in
      (
        u16_bytes (bit_xor total mask),
        (
          omega arith,
          rw plain refl,
          λ rest. rw plain (
              rw (read_u16-u16_bytes (bit_xor total mask) rest (bit_xor-lt 16 total mask t m))
                (rw (bit_xor_twice 16 total mask t m) refl)),
        ),
      )

  -- The padding is shorter than 64 bytes.
  next_pad-small : (l : Link) → (next_pad c key iv opt sec l).0 < 64
  unfolding next_pad
  next_pad-small l = elim (Bool-cases (has_flag opt opt_global_padding)) [
    | inl padded ↦ elim (Option-cases l.shake) [
      | inl none_there ↦ rw padded (rw (none_there, next_pad) (omega arith))
      | inr (sk, there) ↦ rw padded (rw (there, next_pad) (omega arith))
    ]
    | inr plain ↦ rw plain (omega arith)
  ]

  -- A chunk that is written is read back; the two sides then agree on what comes next, unless it
  -- was empty, which is the end.
  abbrev pub ReadsBack : (ℕ → ℕ) → Bytes → Link → Bytes → Link → Type 0
  ReadsBack random plain l out l' =
      (down_chunk c key iv opt sec random plain l ≡ ok (out, l'))
      × (2 ≤ length out)
      × (length plain ≡ 0
          → (rest : Bytes)
          → (l2 : Link) × (tail : Bytes) × (up_chunk c key iv opt sec l (out ++ rest)
              ≡ ok ((none, l2), tail)))
      × (0 < length plain
          → (rest : Bytes)
          → up_chunk c key iv opt sec l (out ++ rest) ≡ ok ((some plain, l'), rest))

  chunk-ReadsBack :
      (random : ℕ → ℕ) (plain : Bytes) (l : Link) (pad_len count : ℕ)
      (shake : Option Shake128Reader) (ct field : Bytes)
      → next_pad c key iv opt sec l ≡ (pad_len, link shake count)
      → IsSealed plain count ct
      → ReadsSize (length ct + pad_len) count shake field
      → IsU16 (length ct + pad_len)
      → (out : Bytes) × (l' : Link) × ReadsBack random plain l out l'
  unfolding down_chunk up_chunk up_body
  chunk-ReadsBack random plain l pad_len count shake ct field padded (seal, size, zero_size, opened)
        (two, wrote, read) fits =
      let pad = fill_bytes random pad_len in
      let pad_size = fill_bytes-length random pad_len in
      let total = length ct + pad_len in
      let same : total % 2 ^ 16 ≡ total = omega arith in
      let back : total - pad_len ≡ length ct = omega arith in
      let shape : (rest : Bytes) → (field ++ (ct ++ pad)) ++ rest ≡ field ++ (ct ++ (pad ++ rest)) =
        λ rest.
          append_assoc field (ct ++ pad) rest ∙ ap (λ x. field ++ x) (append_assoc ct pad rest) in
      let body : 0 < length ct
          → (rest : Bytes)
          → up_body c key iv opt sec pad_len (length ct) (link (masked shake) count)
              (ct ++ (pad ++ rest))
            ≡ ok (
              (if length plain == 0 then none else some plain, counted (link (masked shake) count)),
              rest,
            ) =
        λ some_ct rest.
          rw (ne→== (length ct) 0 (omega arith), opened (pad ++ rest))
            (rw (read_exact-append pad_len pad rest pad_size) refl) in
      (
        field ++ (ct ++ pad),
        counted (link (masked shake) count),
        (
          rw padded (rw seal (rw same (rw wrote refl))),
          omega (arith, length-append field (ct ++ pad)),
          λ zero_plain rest. elim (Bool-cases (length ct == 0)) [
            | inl zero_ct ↦ (
              link (masked shake) count,
              ct ++ (pad ++ rest),
              rw (shape rest, padded) (rw (read (ct ++ (pad ++ rest)), back) (rw zero_ct refl)),
            )
            | inr some_ct ↦ (
              counted (link (masked shake) count),
              rest,
              rw (shape rest, padded)
                  (rw (read (ct ++ (pad ++ rest)), back)
                    (body (ground (arith, some_ct)) rest ∙ rw zero_plain refl)),
            )
          ],
          λ full rest.
              rw (shape rest, padded)
                (rw (read (ct ++ (pad ++ rest)), back)
                  (body (ground (arith, zero_size, full)) rest
                    ∙ rw (ne→== (length plain) 0 (omega arith)) refl)),
        ),
      )

  pub down_chunk-ReadsBack :
      (random : ℕ → ℕ) (plain : Bytes) (l : Link)
      → is_known sec ≡ true
      → length key ≡ 16
      → length iv ≡ 16
      → has_flag opt opt_auth_len ≡ false
      → length plain ≤ chunk_size
      → (out : Bytes) × (l' : Link) × ReadsBack random plain l out l'
  down_chunk-ReadsBack random plain l known k i flag small =
      let p = next_pad c key iv opt sec l in
      let (ct, is) = seal_chunk-IsSealed plain p.1.count known k i (omega arith) in
      let fits : IsU16 (length ct + p.0) = omega (arith, is.1, next_pad-small l) in
      let (field, size) = size_field-ReadsSize (length ct + p.0) p.1.count p.1.shake flag fits in
      chunk-ReadsBack random plain l p.0 p.1.count p.1.shake ct field refl is size fits
