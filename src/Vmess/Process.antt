-- ===== src/Vmess/Process.antt =====
-- `process` of src/vmess/mod.rs: header, connection to the target, and the two relays.
pub mod Relays
use ruproxy.Vmess.Body.{relay_up, relay_down}
use ruproxy.Vmess.Header.{decode_request_header, encode_response_header}
use ruproxy.Io.{Result, and_then, or_fault, connect_failed, ok}
use ruproxy.Bytes.{Bytes}
use ruproxy.Vmess.Crypto.{Crates}
use ruproxy.Prelude.{
  ℕ, zero, suc, ◌+◌, ◌-◌, ◌*◌, ◌/◌, ◌%◌, ◌^◌, ◌≤◌, ◌<◌, ◌≡◌, ◌≢◌, refl, sym, ap, ap₂, ◌∙◌, subst,
  Bool, true, false, not, ◌&&◌, ◌||◌, Option, none, some, List, [], ◌∷◌, ◌++◌, ◌==◌, ltb, leb,
  length, take, drop, get_or, if◌then◌else◌, arith, All, ◌⊎◌, inl, inr, min, max, bit_and, bit_or,
  bit_xor, ◌↔◌, append_assoc, append-nil, length-append, Bool-cases,
}

-- What a connection did: the target, and what was written to it and to the client.
pub record Served : Type 0 where
  pub dialled : Bytes
  pub to_target : Bytes
  pub to_client : Bytes

-- `process` on what the client sends. `connect` gives what each read from the target returns, or
-- none if it is not reached; `random` is the padding. The relays run at once, on different
-- directions, and their errors are only logged.
unfoldable pub process :
    Crates → ℕ → Bytes → (Bytes → Option (List Bytes)) → (ℕ → ℕ → ℕ) → Bytes → Result Served
process c now cmd_key connect random s = and_then (decode_request_header c now cmd_key s) (λ d.
    and_then (or_fault connect_failed (connect d.0.target)) (λ reads.
      and_then (encode_response_header c d.0) (λ response.
        let up = relay_up c d.0.request_body_key d.0.request_body_iv d.0.option d.0.security d.1 in
        let dn =
          relay_down c d.0.response_body_key d.0.response_body_iv d.0.option d.0.security random
            reads in
        ok (record { dialled = d.0.target; to_target = up.0; to_client = response ++ dn.0 }))))
