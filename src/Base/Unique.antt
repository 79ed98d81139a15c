-- ===== src/Base/Unique.antt =====
-- Lists of texts in which no text stands twice.
use Prim.Native.String.{String}
use mathlib.Core.Path.{◌≡◌, refl}
use mathlib.Core.Bool.{false, ◌||◌}
use mathlib.Core.List.{List, [], ◌∷◌, ◌++◌}
use native.Mathlib.Omega.{arith}
use text.Mathlib.Text.{◌==◌}
use text.Mathlib.TextEquality.{eq_iff}
use vexnor.Base.Dict.{has, add}

-- No text stands twice.
abbrev pub Unique : List String → Type 0
Unique [] = Unit
Unique (x ∷ xs) = (has x xs ≡ false) × Unique xs

pub has-snoc : (k x : String) (xs : List String) → has k (xs ++ x ∷ []) ≡ (has k xs || x == k)
unfolding has
has-snoc k x [] = ground arith
has-snoc k x (y ∷ xs) = ground (arith, has-snoc k x xs)

pub Unique-snoc :
    (x : String) (xs : List String) → Unique xs → has x xs ≡ false → Unique (xs ++ x ∷ [])
unfolding has
Unique-snoc x [] u h = (refl, tt)
Unique-snoc x (y ∷ xs) u h = (
  ground (arith, has-snoc y x xs, u.0, h, eq_iff y x, eq_iff x y),
  Unique-snoc x xs u.1 (ground (arith, h)),
)

pub add-new : (x : String) (xs : List String) → has x xs ≡ false → add x xs ≡ xs ++ x ∷ []
unfolding add
add-new x xs h = rw h refl
