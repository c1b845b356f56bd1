-- ===== src/Ids/Sorted.antt =====
-- The sorted ids of a complete set of fragments are 0, 1, …, n - 1, in whatever order they came.
use ruproxy.Prelude.{
  ℕ, zero, suc, ◌+◌, ◌≤◌, ◌<◌, ◌≡◌, refl, sym, ap, ◌∙◌, subst, Bool, true, false, ◌||◌, List, [],
  ◌∷◌, ◌==◌, length, if◌then◌else◌, arith, All, inl, inr, Bool-cases, ==_iff, le→leb, ne→==, lt→leb,
}
use ruproxy.Ids.{insert_sorted, sort, range, mem, Distinct}

-- The numbers from `i` on, `n` of them, that pass the test.
abbrev pub enum : (ℕ → Bool) → ℕ → ℕ → List ℕ
enum p i zero = []
enum p i (suc n) = if p i then i ∷ enum p (suc i) n else enum p (suc i) n

enum_ext : (p q : ℕ → Bool) (i n : ℕ) → ((j : ℕ) → i ≤ j → p j ≡ q j) → enum p i n ≡ enum q i n
enum_ext p q i zero h = refl
enum_ext p q i (suc n) h =
    rw (h i (omega arith), enum_ext p q (suc i) n (λ j le. h j (omega arith)))

insert_front : (p : ℕ → Bool) (k j n : ℕ) → k ≤ j → insert_sorted k (enum p j n) ≡ k ∷ enum p j n
unfolding insert_sorted
insert_front p k j zero h = refl
insert_front p k j (suc n) h = elim (Bool-cases (p j)) [
  | inl yes_j ↦ rw yes_j (rw (le→leb k j h))
  | inr no_j ↦ rw no_j (insert_front p k (suc j) n (omega arith))
]

insert_here :
    (p : ℕ → Bool) (k n : ℕ)
    → insert_sorted k (enum p (suc k) n) ≡ k ∷ enum (λ j. j == k || p j) (suc k) n
insert_here p k n =
    insert_front p k (suc k) n (omega arith)
    ∙ ap (◌∷◌ k) (enum_ext p (λ j. j == k || p j) (suc k) n (λ j le. rw (ne→== j k (omega arith))))

insert_later :
    (p : ℕ → Bool) (k i n : ℕ)
    → i < k
    → insert_sorted k (enum p (suc i) n) ≡ enum (λ j. j == k || p j) (suc i) n
    → insert_sorted k (enum p i (suc n)) ≡ (
        if p i
        then i ∷ enum (λ j. j == k || p j) (suc i) n
        else enum (λ j. j == k || p j) (suc i) n)
unfolding insert_sorted
insert_later p k i n before rest = elim (Bool-cases (p i)) [
  | inl yes_i ↦ rw yes_i (rw (lt→leb k i before) (ap (◌∷◌ i) rest))
  | inr no_i ↦ rw no_i rest
]

insert_enum :
    (p : ℕ → Bool) (k i n : ℕ)
    → i ≤ k
    → k < i + n
    → p k ≡ false
    → insert_sorted k (enum p i n) ≡ enum (λ j. j == k || p j) i n
insert_enum p k i zero h l e = absurd (omega arith)
insert_enum p k i (suc n) h l e = elim (Bool-cases (i == k)) [
  | inl here ↦ let same = (==_iff i k).0 here in rw here (rw (same, e) (insert_here p k n))
  | inr later ↦
      let before : i < k = ground (arith, ==_iff i k) in
      rw later (insert_later p k i n before (insert_enum p k (suc i) n before (omega arith) e))
]

enum_none : (i n : ℕ) → enum (λ j. false) i n ≡ []
enum_none i zero = refl
enum_none i (suc n) = enum_none (suc i) n

pub sort-enum :
    (n : ℕ) (ks : List ℕ) → Distinct ks → All (λ k. k < n) ks → sort ks ≡ enum (mem ks) 0 n
unfolding sort
sort-enum n [] d h = sym (enum_none 0 n)
sort-enum n (k ∷ ks) d h =
    rw (sort-enum n ks d.1 h.1) (insert_enum (mem ks) k 0 n (omega arith) (omega (arith, h.0)) d.0)

length-enum : (p : ℕ → Bool) (i n : ℕ) → length (enum p i n) ≤ n
length-enum p i zero = omega arith
length-enum p i (suc n) = ground (arith, length-enum p (suc i) n)

enum_full : (p : ℕ → Bool) (i n : ℕ) → length (enum p i n) ≡ n → enum p i n ≡ range i n
enum_full p i zero h = refl
enum_full p i (suc n) h = ground (arith, length-enum p (suc i) n, enum_full p (suc i) n)

enum_all : (p : ℕ → Bool) (i n j : ℕ) → length (enum p i n) ≡ n → i ≤ j → j < i + n → p j ≡ true
enum_all p i zero j h a b = absurd (omega arith)
enum_all p i (suc n) j h a b =
    ground (arith, length-enum p (suc i) n, enum_all p (suc i) n j, subst (λ x. p x ≡ true))

length-insert_sorted : (k : ℕ) (xs : List ℕ) → length (insert_sorted k xs) ≡ suc (length xs)
unfolding insert_sorted
length-insert_sorted k [] = refl
length-insert_sorted k (x ∷ xs) = ground (arith, length-insert_sorted k xs)

length-sort : (ks : List ℕ) → length (sort ks) ≡ length ks
unfolding sort
length-sort [] = refl
length-sort (k ∷ ks) = omega (arith, length-insert_sorted k (sort ks), length-sort ks)

-- `n` distinct ids below `n`, sorted, are all of them; each is among them.
pub sort-range :
    (n : ℕ) (ks : List ℕ)
    → Distinct ks
    → All (λ k. k < n) ks
    → length ks ≡ n
    → (sort ks ≡ range 0 n) × ((j : ℕ) → j < n → mem ks j ≡ true)
sort-range n ks d h l =
    let e = sort-enum n ks d h in
    let full : length (enum (mem ks) 0 n) ≡ n = ap length (sym e) ∙ length-sort ks ∙ l in
    (
      e ∙ enum_full (mem ks) 0 n full,
      λ j lt. enum_all (mem ks) 0 n j full (omega arith) (omega arith),
    )
