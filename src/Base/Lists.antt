-- ===== src/Base/Lists.antt =====
-- Lists measured by the native numbers, and predicates on them by recursion.
use Prim.Native.Nat.{ℕ, suc, ◌+◌}
use mathlib.Core.Path.{◌≡◌, refl, ap, sym, ◌∙◌}
use mathlib.Core.Logic.{◌⊎◌, inl, inr}
use mathlib.Core.List.{List, [], ◌∷◌, ◌++◌, map}
use mathlib.Core.Bool.{Bool, true, false, ◌||◌, not}
use native.Mathlib.Omega.{arith}
use vexnor.Base.Tests.{if◌then◌else◌, Bool-cases}

module _ {ℓ} {A : Type ℓ} where
  abbrev pub length : List A → ℕ
  length [] = 0
  length (x ∷ xs) = suc (length xs)

  pub length-append : (xs ys : List A) → length (xs ++ ys) ≡ length xs + length ys
  length-append [] ys = omega arith
  length-append (x ∷ xs) ys = omega (arith, length-append xs ys)

  abbrev pub any : (A → Bool) → List A → Bool
  any p [] = false
  any p (x ∷ xs) = p x || any p xs

module _ {ℓ κ} {A : Type ℓ} where
  abbrev pub All : (A → Type κ) → List A → Type κ
  All P [] = Unit
  All P (x ∷ xs) = P x × All P xs

  pub All-append : (P : A → Type κ) (xs ys : List A) → All P xs → All P ys → All P (xs ++ ys)
  All-append P [] ys hx hy = hy
  All-append P (x ∷ xs) ys hx hy = (hx.0, All-append P xs ys hx.1 hy)

-- The element is in the list.
abbrev pub In : {A : Type 0} → A → List A → Type 0
In x [] = ⊥
In x (y ∷ ys) = (x ≡ y) ⊎ In x ys

pub In-append-left : {A : Type 0} (x : A) (xs ys : List A) → In x xs → In x (xs ++ ys)
In-append-left x [] ys h = elim h [ ]
In-append-left x (y ∷ xs) ys (inl h) = inl h
In-append-left x (y ∷ xs) ys (inr h) = inr (In-append-left x xs ys h)

pub In-append-right : {A : Type 0} (x : A) (xs ys : List A) → In x ys → In x (xs ++ ys)
In-append-right x [] ys h = h
In-append-right x (y ∷ xs) ys h = inr (In-append-right x xs ys h)

-- xs.filter(p)
abbrev pub filter : {A : Type 0} → (A → Bool) → List A → List A
filter p [] = []
filter p (x ∷ xs) = let rest = filter p xs in if p x then x ∷ rest else rest

module _ {A : Type 0} where
  pub In-filter : (p : A → Bool) (x : A) (xs : List A) → In x (filter p xs) → In x xs × (p x ≡ true)
  In-filter p x [] h = elim h [ ]
  In-filter p x (y ∷ xs) h = elim (Bool-cases (p y)) [
    | inl e ↦ elim (here e h) [
      | inl q ↦ (inl q, ap p q ∙ e)
      | inr i ↦ let r = In-filter p x xs i in (inr r.0, r.1)
    ]
    | inr e ↦ let r = In-filter p x xs (rw e at h) in (inr r.0, r.1)
  ]
    where
      here : p y ≡ true → In x (filter p (y ∷ xs)) → In x (y ∷ filter p xs)
      here e h = rw e at h

  pub filter-In : (p : A → Bool) (x : A) (xs : List A) → In x xs → p x ≡ true → In x (filter p xs)
  filter-In p x [] h e = elim h [ ]
  filter-In p x (y ∷ xs) (inl q) e = rw (sym (ap p q) ∙ e) (inl q)
  filter-In p x (y ∷ xs) (inr i) e = elim (Bool-cases (p y)) [
    | inl b ↦ rw b (inr (filter-In p x xs i e))
    | inr b ↦ rw b (filter-In p x xs i e)
  ]

  pub length-filter :
      (p : A → Bool) (xs : List A)
      → length (filter p xs) + length (filter (λ x. not (p x)) xs) ≡ length xs
  length-filter p [] = omega arith
  length-filter p (x ∷ xs) = ground (arith, length-filter p xs)

module _ {A B : Type 0} where
  pub In-map : (f : A → B) (y : B) (xs : List A) → In y (map f xs) → (x : A) × In x xs × (y ≡ f x)
  In-map f y [] h = elim h [ ]
  In-map f y (x ∷ xs) (inl q) = (x, inl refl, q)
  In-map f y (x ∷ xs) (inr i) = let (z, j, q) = In-map f y xs i in (z, inr j, q)

  pub map-In : (f : A → B) (x : A) (xs : List A) → In x xs → In (f x) (map f xs)
  map-In f x [] h = elim h [ ]
  map-In f x (y ∷ xs) (inl q) = inl (ap f q)
  map-In f x (y ∷ xs) (inr i) = inr (map-In f x xs i)

  pub length-map : (f : A → B) (xs : List A) → length (map f xs) ≡ length xs
  length-map f [] = refl
  length-map f (x ∷ xs) = omega (arith, length-map f xs)
