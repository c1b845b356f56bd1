-- ===== src/Text/Split.antt =====
-- `split_once`, `rsplit_once` and `trim_matches`.
use ruproxy.Prelude.{ℕ, Bool, Option, none, some, [], ◌∷◌, ◌==◌, if◌then◌else◌}
use ruproxy.Bytes.{Bytes}

-- At the first `c`.
unfoldable pub split_once : ℕ → Bytes → Option (Bytes × Bytes)
split_once c [] = none
split_once c (x ∷ xs) =
    let later : Option (Bytes × Bytes) = elim (split_once c xs) [
      | none ↦ none
      | some (a, b) ↦ some (x ∷ a, b)
    ] in
    if x == c then some ([], xs) else later

-- At the last `c`.
unfoldable pub rsplit_once : ℕ → Bytes → Option (Bytes × Bytes)
rsplit_once c [] = none
rsplit_once c (x ∷ xs) = elim (rsplit_once c xs) [
  | some (a, b) ↦ some (x ∷ a, b)
  | none ↦ if x == c then some ([], xs) else none
]

unfoldable pub trim_start_matches : (ℕ → Bool) → Bytes → Bytes
trim_start_matches p [] = []
trim_start_matches p (x ∷ xs) = let rest = trim_start_matches p xs in if p x then rest else x ∷ xs

drop_if : (ℕ → Bool) → ℕ → Bytes → Bytes
drop_if p x [] = if p x then [] else x ∷ []
drop_if p x (y ∷ ys) = x ∷ y ∷ ys

unfoldable pub trim_end_matches : (ℕ → Bool) → Bytes → Bytes
unfolding drop_if
trim_end_matches p [] = []
trim_end_matches p (x ∷ xs) = drop_if p x (trim_end_matches p xs)

unfoldable pub trim_matches : (ℕ → Bool) → Bytes → Bytes
unfolding trim_start_matches trim_end_matches
trim_matches p s = trim_start_matches p (trim_end_matches p s)
