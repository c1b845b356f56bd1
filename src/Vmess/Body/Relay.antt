-- ===== src/Vmess/Body/Relay.antt =====
-- The loops of src/vmess/mod.rs: `relay_up` reads what `relay_down` writes.
use ruproxy.Io.{Fault}
use ruproxy.Vmess.Body.Chunk.{is_known, down_chunk-ReadsBack}
use ruproxy.Vmess.Crypto.Laws.{Documented}
use ruproxy.Vmess.Crypto.{Crates}
use ruproxy.Vmess.Body.{
  relay_down, chunk_size, relay_up, down_chunks, Link, has_flag, up_chunks, copy_all, opt_auth_len,
  sec_none, opt_chunk_stream, new_link,
}
use ruproxy.Bytes.{Bytes}
use ruproxy.Prelude.{
  ℕ, zero, suc, ◌+◌, ◌≤◌, ◌<◌, ◌≡◌, refl, sym, ap, ◌∙◌, subst, true, false, not, ◌&&◌, Option, none,
  List, [], ◌∷◌, ◌++◌, ◌==◌, length, arith, All, inl, inr, append_assoc, append-nil, length-append,
  Bool-cases, ne→==,
}

-- What a read of `relay_down` returns before the end of the stream.
abbrev pub IsRead : Bytes → Type 0
IsRead d = (0 < length d) × (length d ≤ chunk_size)

module _ (c : Crates) (laws : Documented c) (key iv : Bytes) (opt sec : ℕ) where
  -- The chunks that were written are read back, by a reader in the same state.
  abbrev Passes : (ℕ → ℕ → ℕ) → List Bytes → Link → ℕ → Type 0
  Passes random reads l fuel =
      (out : Bytes) × (down_chunks c key iv opt sec random reads l ≡ (out, none))
      × (length reads < length out)
      × ((rest : Bytes) → up_chunks c key iv opt sec fuel l (out ++ rest) ≡ (copy_all reads, none))

  down_chunks-Passes :
      (random : ℕ → ℕ → ℕ) (reads : List Bytes) (l : Link) (fuel : ℕ)
      → is_known sec ≡ true
      → length key ≡ 16
      → length iv ≡ 16
      → has_flag opt opt_auth_len ≡ false
      → All IsRead reads
      → length reads < fuel
      → Passes random reads l fuel
  unfolding down_chunks up_chunks
  down_chunks-Passes random reads l zero known k i flag h f = absurd (omega arith)
  down_chunks-Passes random [] l (suc fuel) known k i flag h f =
      let (out, l', (wrote, two, last, more)) =
        down_chunk-ReadsBack c laws key iv opt sec (random 0) [] l known k i flag (omega arith) in
      (
        out,
        rw (wrote, down_chunks) refl,
        omega arith,
        λ rest. let (l2, tail, e) = last refl rest in rw (e, up_chunks) refl,
      )
  down_chunks-Passes random (d ∷ reads) l (suc fuel) known k i flag h f =
      let (out, l', (wrote, two, last, more)) =
        down_chunk-ReadsBack c laws key iv opt sec (random (length reads + 1)) d l known k i flag
          h.0.1 in
      let (outs, writes, long, reads_back) =
        down_chunks-Passes random reads l' fuel known k i flag h.1 (omega arith) in
      (
        out ++ outs,
        rw (wrote, down_chunks) (rw (ne→== (length d) 0 (omega (arith, h.0.0))) (rw writes refl)),
        omega (arith, length-append out outs),
        λ rest.
            rw (append_assoc out outs rest)
              (rw (more h.0.0 (outs ++ rest), up_chunks) (rw (reads_back rest) refl)),
      )

-- For every known security and all options but encrypted lengths, whatever paddings were drawn,
-- `relay_up` reads from what `relay_down` wrote exactly the data, without an error; the key and
-- the initial vector have 16 bytes, no read is empty or above 8192 bytes, and the crates do what
-- is documented of them.
pub relay_up-relay_down :
    (c : Crates) (key iv : Bytes) (opt sec : ℕ) (random : ℕ → ℕ → ℕ) (reads : List Bytes)
    → Documented c
    → is_known sec ≡ true
    → length key ≡ 16
    → length iv ≡ 16
    → has_flag opt opt_auth_len ≡ false
    → All IsRead reads
    → (out : Bytes) × (relay_down c key iv opt sec random reads ≡ (out, none))
      × (relay_up c key iv opt sec out ≡ (copy_all reads, none))
unfolding relay_down relay_up
relay_up-relay_down c key iv opt sec random reads laws known k i flag h =
    elim (Bool-cases (sec == sec_none && not (has_flag opt opt_chunk_stream))) [
      | inl plain ↦ (copy_all reads, rw plain refl, rw plain refl)
      | inr chunked ↦
          let l = new_link c key iv opt sec in
          let (out1, wrote1, long, back1) =
            down_chunks-Passes c laws key iv opt sec random reads l (suc (length reads)) known k i
              flag h (omega arith) in
          let (out, wrote, long2, back) =
            down_chunks-Passes c laws key iv opt sec random reads l (suc (length out1)) known k i
              flag h (omega arith) in
          let same : out1 ≡ out = ap (λ (r : Bytes × Option Fault). r.0) (sym wrote1 ∙ wrote) in
          let whole : up_chunks c key iv opt sec (suc (length out)) l out ≡ (copy_all reads, none) =
            subst (λ x. up_chunks c key iv opt sec (suc (length x)) l out ≡ (copy_all reads, none))
              same
              (subst
                (λ x. up_chunks c key iv opt sec (suc (length out1)) l x ≡ (copy_all reads, none))
                (append-nil out) (back [])) in
          (out, rw chunked wrote, rw chunked whole)
    ]
