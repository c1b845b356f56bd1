-- ===== src/Config.antt =====
-- src/config.rs: the check of the tags.
use ruproxy.Bytes.{Bytes, bytes_eq, bytes_eq_iff}
use ruproxy.Prelude.{
  ◌≡◌, ◌≢◌, refl, Bool, false, ◌||◌, Option, none, some, List, [], ◌∷◌, if◌then◌else◌, arith, ◌↔◌,
}

-- `HashSet::contains`
abbrev pub is_seen : List Bytes → Bytes → Bool
is_seen [] tag = false
is_seen (t ∷ seen) tag = bytes_eq t tag || is_seen seen tag

-- The loop, on the tags of the nodes, with those seen so far.
unfoldable pub first_duplicate : List Bytes → List Bytes → Option Bytes
first_duplicate seen [] = none
first_duplicate seen (tag ∷ tags) =
    let rest = first_duplicate (tag ∷ seen) tags in if is_seen seen tag then some tag else rest

unfoldable pub check_duplicate_tags : List Bytes → Option Bytes
check_duplicate_tags tags = first_duplicate [] tags

abbrev pub IsNew : List Bytes → Bytes → Type 0
IsNew [] tag = Unit
IsNew (t ∷ seen) tag = (t ≢ tag) × IsNew seen tag

-- No tag stands twice, nor among those seen.
abbrev pub IsDistinct : List Bytes → List Bytes → Type 0
IsDistinct seen [] = Unit
IsDistinct seen (tag ∷ tags) = IsNew seen tag × IsDistinct (tag ∷ seen) tags

is_seen_iff : (seen : List Bytes) (tag : Bytes) → (is_seen seen tag ≡ false) ↔ IsNew seen tag
is_seen_iff [] tag = (λ h. tt, λ h. refl)
is_seen_iff (t ∷ seen) tag = ground (arith, bytes_eq_iff t tag, is_seen_iff seen tag)

first_duplicate_iff :
    (tags seen : List Bytes) → (first_duplicate seen tags ≡ none) ↔ IsDistinct seen tags
unfolding first_duplicate
first_duplicate_iff [] seen = (λ h. tt, λ h. refl)
first_duplicate_iff (tag ∷ tags) seen =
    ground (arith, is_seen_iff seen tag, first_duplicate_iff tags (tag ∷ seen))

-- The check passes exactly if no two nodes have the same tag.
pub check_duplicate_tags_iff :
    (tags : List Bytes) → (check_duplicate_tags tags ≡ none) ↔ IsDistinct [] tags
unfolding check_duplicate_tags
check_duplicate_tags_iff tags = first_duplicate_iff tags []
