-- ===== src/Catalog/Canonical.antt =====
-- Sorting by distinct keys forgets the order of the input.
use vexnor.Base.{
  ◌≡◌, refl, sym, ap, ◌∙◌, String, Bool, true, false, List, [], ◌∷◌, map, ◌==◌, ◌||◌, arith,
  Bool-cases, inl, inr, eq_iff,
}
use vexnor.Base.Dict.{has}
use vexnor.Base.Unique.{Unique}
use vexnor.Catalog.Sorting.{place, sort, compare_by}

-- The same elements in another order.
pub data Reordered {A : Type 0} : List A → List A → Type 0 where
  done : Reordered [] []
  keep : (x : A) {xs ys : List A} → Reordered xs ys → Reordered (x ∷ xs) (x ∷ ys)
  swap : (x y : A) (xs : List A) → Reordered (x ∷ y ∷ xs) (y ∷ x ∷ xs)
  then_also : {xs ys zs : List A} → Reordered xs ys → Reordered ys zs → Reordered xs zs

-- A comparison that is positive in exactly one direction between distinct texts, and transitive.
pub record IsOrder (locale_gt : String → String → Bool) : Type 0 where
  pub one_way : (a b : String) → locale_gt a b ≡ true → locale_gt b a ≡ false
  pub total : (a b : String) → (a == b) ≡ false → locale_gt a b ≡ false → locale_gt b a ≡ true
  pub transitive :
      (a b c : String) → locale_gt a b ≡ true → locale_gt b c ≡ true → locale_gt a c ≡ true

has-Reordered : (k : String) {xs ys : List String} → Reordered xs ys → has k xs ≡ has k ys
unfolding has
has-Reordered k done = refl
has-Reordered k (keep x r) = ap (λ b. x == k || b) (has-Reordered k r)
has-Reordered k (swap x y xs) = ground arith
has-Reordered k (then_also r s) = has-Reordered k r ∙ has-Reordered k s

pub Reordered-map :
    {A B : Type 0} (f : A → B) {xs ys : List A} → Reordered xs ys → Reordered (map f xs) (map f ys)
Reordered-map f done = done
Reordered-map f (keep x r) = keep (f x) (Reordered-map f r)
Reordered-map f (swap x y xs) = swap (f x) (f y) (map f xs)
Reordered-map f (then_also r s) = then_also (Reordered-map f r) (Reordered-map f s)

pub Unique-Reordered : {xs ys : List String} → Reordered xs ys → Unique xs → Unique ys
unfolding has
Unique-Reordered done u = u
Unique-Reordered (keep x r) u = (sym (has-Reordered x r) ∙ u.0, Unique-Reordered r u.1)
Unique-Reordered (swap x y xs) u = ground (arith, u.0, u.1.0, u.1.1, eq_iff x y, eq_iff y x)
Unique-Reordered (then_also r s) u = Unique-Reordered s (Unique-Reordered r u)

module _ {A : Type 0} (locale_gt : String → String → Bool) (order : IsOrder locale_gt)
    (key : A → String) where
  abbrev gt : A → A → Bool
  gt = compare_by locale_gt key

  -- Two elements with distinct keys may be placed in either order.
  place_comm :
      (x y : A) (xs : List A)
      → (key x == key y) ≡ false
      → place gt x (place gt y xs) ≡ place gt y (place gt x xs)
  unfolding place
  place_comm x y [] d = elim (Bool-cases (gt x y)) [
    | inl e ↦ rw (e, order.one_way (key x) (key y) e) refl
    | inr e ↦ rw (e, order.total (key x) (key y) d e) refl
  ]
  place_comm x y (z ∷ zs) d = ground (
    arith,
    place_comm x y zs d,
    order.one_way (key x) (key y),
    order.one_way (key y) (key x),
    order.total (key x) (key y) d,
    order.transitive (key x) (key y) (key z),
    order.transitive (key y) (key x) (key z),
  )

  pub sort-Reordered :
      {xs ys : List A} → Reordered xs ys → Unique (map key xs) → sort gt xs ≡ sort gt ys
  unfolding sort has
  sort-Reordered done u = refl
  sort-Reordered (keep x r) u = ap (place gt x) (sort-Reordered r u.1)
  sort-Reordered (swap x y xs) u =
      place_comm x y (sort gt xs)
        (ground (arith, u.0, eq_iff (key x) (key y), eq_iff (key y) (key x)))
  sort-Reordered (then_also r s) u =
      sort-Reordered r u ∙ sort-Reordered s (Unique-Reordered (Reordered-map key r) u)
