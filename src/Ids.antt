-- ===== src/Ids.antt =====
-- Numbered pieces: the ids of fragments and of packets.
pub mod Sorted
use ruproxy.Prelude.{
  ℕ, zero, suc, ◌≡◌, Bool, true, false, ◌||◌, List, [], ◌∷◌, ◌++◌, ◌==◌, leb, if◌then◌else◌,
}
use ruproxy.Bytes.{Bytes}

abbrev pub range : ℕ → ℕ → List ℕ
range i zero = []
range i (suc n) = i ∷ range (suc i) n

abbrev pub mem : List ℕ → ℕ → Bool
mem [] j = false
mem (k ∷ ks) j = j == k || mem ks j

-- No id comes twice.
abbrev pub Distinct : List ℕ → Type 0
Distinct [] = Unit
Distinct (k ∷ ks) = (mem ks k ≡ false) × Distinct ks

-- `sort_unstable` on the ids.
unfoldable pub insert_sorted : ℕ → List ℕ → List ℕ
insert_sorted k [] = k ∷ []
insert_sorted k (x ∷ xs) = if leb k x then k ∷ x ∷ xs else x ∷ insert_sorted k xs

unfoldable pub sort : List ℕ → List ℕ
sort [] = []
sort (k ∷ ks) = insert_sorted k (sort ks)

-- The pieces of `ids`, one after the other.
abbrev pub concat_pieces : (ℕ → Bytes) → List ℕ → Bytes
concat_pieces pieces [] = []
concat_pieces pieces (id ∷ ids) = pieces id ++ concat_pieces pieces ids
