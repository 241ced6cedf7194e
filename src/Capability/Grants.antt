-- ===== src/Capability/Grants.antt =====
-- Grants and their clearance levels, of
-- docs/book/code/capability/capability_adversarial/backend.py. A frozenset of grants is a list.
use adversarial_cognition.Prelude.{
  ℕ, String, Bool, true, false, Option, none, some, List, [], ◌∷◌, ◌==◌, if◌then◌else◌, contains,
  text_le,
}
use adversarial_cognition.Prelude.Sorting
use adversarial_cognition.Prelude.Int.{ℤ, pos, negsuc, less}

-- `LEVELS.index(label)`: `none` is its ValueError.
unfoldable pub level : String → Option ℕ
level label =
    if label == "public"
    then some 0
    else if label == "internal"
    then some 1
    else if label == "sensitive"
    then some 2
    else none

-- The level of a grant "read:" + label with the label in LEVELS, and `none` for any other grant.
unfoldable pub read_level : String → Option ℕ
read_level g =
    if g == "read:public"
    then some 0
    else if g == "read:internal"
    then some 1
    else if g == "read:sensitive"
    then some 2
    else none

abbrev pub max_level : ℤ → Option ℕ → ℤ
max_level best none = best
max_level best (some l) = if less best (pos l) then pos l else best

unfoldable pub ceiling_from : ℤ → List String → ℤ
ceiling_from best [] = best
ceiling_from best (g ∷ gs) = ceiling_from (max_level best (read_level g)) gs

-- `_read_ceiling`
unfoldable pub read_ceiling : List String → ℤ
unfolding ceiling_from
read_ceiling = ceiling_from (negsuc 0)

abbrev pub implied_by : List String → String → Option ℕ → Bool
implied_by parent g none = contains g parent
implied_by parent g (some l) = if less (read_ceiling parent) (pos l) then false else true

-- `_grant_implied`
unfoldable pub grant_implied : List String → String → Bool
grant_implied parent g = implied_by parent g (read_level g)

-- A frozenset holds a grant once.
unfoldable pub unique : List String → List String
unique [] = []
unique (g ∷ gs) = let rest = unique gs in if contains g rest then rest else g ∷ rest

-- `tuple(sorted(grants))` of a frozenset
unfoldable pub sorted_grants : List String → List String
unfolding unique Sorting.sort
sorted_grants grants = Sorting.sort text_le (unique grants)
