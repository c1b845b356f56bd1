-- ===== src/Text/Lossy/Laws.antt =====
-- When `from_utf8_lossy` changes nothing.
use ruproxy.Prelude.{
  ℕ, zero, suc, ◌<◌, ◌≡◌, refl, ap, sym, ◌∙◌, true, [], ◌∷◌, ◌++◌, All, arith, inl, inr,
  append_assoc, append-nil, Bool-cases, All-right, Option-cases, subst, le→leb,
}
use ruproxy.Bytes.{Bytes}
use ruproxy.Text.Lossy.{from_utf8_lossy, lossy_run, lossy_start}
use ruproxy.Text.Utf8.{is_utf8, utf8_run, utf8_lead, within}

abbrev pub IsAscii : Bytes → Type 0
IsAscii = All (λ b. b < 0x80)

lossy_start_inv :
    (b : ℕ) (s : Bytes)
    → ((n lo hi : ℕ) (begun : Bytes)
        → IsAscii (lossy_run s n lo hi begun)
        → lossy_run s n lo hi begun ≡ begun ++ s)
    → IsAscii (lossy_start b (lossy_run s))
    → lossy_start b (lossy_run s) ≡ b ∷ s
unfolding lossy_start
lossy_start_inv b s ih a = elim (Option-cases (utf8_lead b)) [
  | inl e ↦ absurd (omega (arith, (rw (e, lossy_start) at a)))
  | inr ((n, lo, hi), e) ↦ rw (e, lossy_start) (ih n lo hi (b ∷ []) (rw (e, lossy_start) at a))
]

lossy_run_inv :
    (s : Bytes) (n lo hi : ℕ) (begun : Bytes)
    → IsAscii (lossy_run s n lo hi begun)
    → lossy_run s n lo hi begun ≡ begun ++ s
unfolding lossy_run
lossy_run_inv [] zero lo hi begun a = sym (append-nil begun)
lossy_run_inv [] (suc n) lo hi begun a = absurd (omega (arith, a))
lossy_run_inv (b ∷ bs) zero lo hi begun a =
    ap (λ t. begun ++ t)
      (lossy_start_inv b bs (λ n l h g k. lossy_run_inv bs n l h g k)
        (All-right _ begun (lossy_start b (lossy_run bs)) a))
lossy_run_inv (b ∷ bs) (suc n) lo hi begun a = elim (Bool-cases (within lo hi b)) [
  | inl e ↦
      rw (e, lossy_run)
        (lossy_run_inv bs n 0x80 0xbf (begun ++ (b ∷ [])) (rw (e, lossy_run) at a)
          ∙ append_assoc begun (b ∷ []) bs)
  | inr e ↦ absurd (omega (arith, (rw (e, lossy_run) at a)))
]

-- A text in ASCII comes from no other bytes.
pub from_utf8_lossy-inj : (s t : Bytes) → IsAscii t → from_utf8_lossy s ≡ t → s ≡ t
unfolding from_utf8_lossy
from_utf8_lossy-inj s t a h = sym (lossy_run_inv s 0 0 0 [] (subst IsAscii (sym h) a)) ∙ h

lossy_start_ok :
    (b : ℕ) (s : Bytes)
    → ((n lo hi : ℕ) (begun : Bytes)
        → utf8_run n lo hi s ≡ true
        → lossy_run s n lo hi begun ≡ begun ++ s)
    → utf8_run 0 0 0 (b ∷ s) ≡ true
    → lossy_start b (lossy_run s) ≡ b ∷ s
unfolding lossy_start utf8_run
lossy_start_ok b s ih a = elim (Option-cases (utf8_lead b)) [
  | inl e ↦ cc (rw (e, utf8_run) at a)
  | inr ((n, l, h), e) ↦ rw (e, lossy_start) (ih n l h (b ∷ []) (rw (e, utf8_run) at a))
]

lossy_run_ok :
    (s : Bytes) (n lo hi : ℕ) (begun : Bytes)
    → utf8_run n lo hi s ≡ true
    → lossy_run s n lo hi begun ≡ begun ++ s
unfolding lossy_run utf8_run
lossy_run_ok [] zero lo hi begun a = sym (append-nil begun)
lossy_run_ok [] (suc n) lo hi begun a = cc
lossy_run_ok (b ∷ bs) zero lo hi begun a =
    ap (λ t. begun ++ t) (lossy_start_ok b bs (λ n l h g k. lossy_run_ok bs n l h g k) a)
lossy_run_ok (b ∷ bs) (suc n) lo hi begun a = elim (Bool-cases (within lo hi b)) [
  | inl e ↦
      rw (e, lossy_run)
        (lossy_run_ok bs n 0x80 0xbf (begun ++ (b ∷ [])) (rw (e) at a)
          ∙ append_assoc begun (b ∷ []) bs)
  | inr e ↦ cc (rw (e) at a)
]

-- Nothing is replaced in a text.
pub from_utf8_lossy_lem : (s : Bytes) → is_utf8 s ≡ true → from_utf8_lossy s ≡ s
unfolding from_utf8_lossy is_utf8
from_utf8_lossy_lem s h = lossy_run_ok s 0 0 0 [] h

utf8_run-IsAscii : (s : Bytes) → IsAscii s → utf8_run 0 0 0 s ≡ true
unfolding utf8_run utf8_lead
utf8_run-IsAscii [] a = refl
utf8_run-IsAscii (b ∷ s) a =
    rw (le→leb b 0x7f (omega (arith, a.0)), utf8_run) (utf8_run-IsAscii s a.1)

pub from_utf8_lossy-IsAscii : (s : Bytes) → IsAscii s → from_utf8_lossy s ≡ s
unfolding is_utf8
from_utf8_lossy-IsAscii s a = from_utf8_lossy_lem s (utf8_run-IsAscii s a)
