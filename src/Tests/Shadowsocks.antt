-- ===== src/Tests/Shadowsocks.antt =====
-- The theorems on src/shadowsocks, at concrete inputs, with a cipher that only adds a tag.
use ruproxy.Bytes.{Bytes}
use ruproxy.Prelude.{
  ℕ, ◌+◌, ◌-◌, ◌≡◌, ◌≢◌, refl, none, some, [], ◌∷◌, ◌++◌, ltb, length, take, if◌then◌else◌, arith,
  length-append, replicate, le→ltb, length-replicate, take-length_append,
}
use ruproxy.Shadowsocks.Nonce.{nonce_after, nonce_after-distinct}
use ruproxy.Shadowsocks.Stream.{Aead, write_data, read_all}
use ruproxy.Shadowsocks.Stream.RoundTrip.{Seals, reading, writing, read_all-write_data}
use ruproxy.Shadowsocks.Header.{parse_request_header}
use ruproxy.Shadowsocks.Header.Parsed.{request_header, parse_request_header-request_header}
use ruproxy.Target.{name}
use ruproxy.Text.{is_utf8}
use ruproxy.Io.{ok, err, header_too_short}

nonce_after-distinct_example : nonce_after 256 ≢ nonce_after 0
nonce_after-distinct_example = nonce_after-distinct 256 0 (omega arith) (omega arith) (omega arith)

abbrev tagging : Aead
tagging = record {
  encrypt = λ key nonce pt. some (pt ++ replicate 16 0);
  decrypt = λ key nonce ct. if ltb (length ct) 16 then none else some (take (length ct - 16) ct);
}

tagging-Seals : (key : Bytes) → Seals tagging key
tagging-Seals key = record {
  seal = λ nonce pt small.
      let size : length (pt ++ replicate 16 0) ≡ length pt + 16 =
        length-append pt (replicate 16 0) in
      let back : length pt + 16 - 16 ≡ length pt = omega arith in
      (
        pt ++ replicate 16 0,
        refl,
        size,
        rw (size, le→ltb (length pt + 16) 16 (omega arith), back) (rw take-length_append refl),
      );
}

abbrev key : Bytes
key = replicate 32 1

read_all-write_data_example :
    (ct nonce' : Bytes) × (write_data tagging (replicate 40000 7) (writing [] key (replicate 12 0))
      ≡ ok (writing ([] ++ ct) key nonce'))
    × (read_all tagging 50000 1000 (reading ct key (replicate 12 0) []) ≡ (replicate 40000 7, none))
read_all-write_data_example =
    read_all-write_data tagging key (replicate 12 0) [] (replicate 40000 7) 50000 1000
      (tagging-Seals key) (omega arith) (omega (arith, length-replicate {A = ℕ} 40000 7))

-- A name of one byte without padding is refused.
parse_request_header-request_header_example :
    parse_request_header 1000 (request_header 0 990 (name (b'a' ∷ [])) 80 []) 0
    ≡ err header_too_short
unfolding is_utf8
parse_request_header-request_header_example =
    parse_request_header-request_header 1000 0 990 (name (b'a' ∷ [])) 80 [] (omega arith)
      (omega arith) (refl, omega arith, omega arith) (omega arith) (omega arith)

abbrev header : Bytes
header = 0 ∷ 0 ∷ 0 ∷ 0 ∷ 0 ∷ 0 ∷ 0 ∷ 3 ∷ 232 ∷ 1 ∷ 127 ∷ 0 ∷ 0 ∷ 1 ∷ 0 ∷ 80 ∷ 0 ∷ 0 ∷ []
