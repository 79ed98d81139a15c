-- ===== src/Catalog/Sorting.antt =====
-- Array.prototype.sort as a stable insertion sort, with the comparisons of schema/schema-catalog.ts,
-- `compareBy` and `compareOrdinalThen`. `gt a b` says that the comparison of `a` and `b` is
-- positive; `locale_gt` is that of localeCompare.
use vexnor.Base.{ℕ, String, Bool, List, [], ◌∷◌, if◌then◌else◌, ltb, nat_eq}

module _ {A : Type 0} (gt : A → A → Bool) where
  -- In front of the first element that it does not come behind.
  unfoldable pub place : A → List A → List A
  place x [] = x ∷ []
  place x (y ∷ ys) = let rest = place x ys in if gt x y then y ∷ rest else x ∷ y ∷ ys

  unfoldable pub sort : List A → List A
  unfolding place
  sort [] = []
  sort (x ∷ xs) = place x (sort xs)

-- `compareBy`
abbrev pub compare_by : {A : Type 0} → (String → String → Bool) → (A → String) → A → A → Bool
compare_by locale_gt get_value left right = locale_gt (get_value left) (get_value right)

-- `compareOrdinalThen`, of a value and its ordinal
abbrev pub compare_ordinal_then :
    {A : Type 0} → (String → String → Bool) → (A → ℕ) → (A → String) → A → A → Bool
compare_ordinal_then locale_gt ordinal get_value left right =
    if nat_eq (ordinal left) (ordinal right)
    then locale_gt (get_value left) (get_value right)
    else ltb (ordinal right) (ordinal left)
