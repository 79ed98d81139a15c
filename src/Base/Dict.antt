-- ===== src/Base/Dict.antt =====
-- JavaScript's `Map`, `Set` and plain objects with string keys: association lists in the order
-- of insertion, where a write to a key that is there keeps the key's place.
use Prim.Native.String.{String}
use mathlib.Core.Path.{◌≡◌, refl}
use mathlib.Core.Bool.{Bool, true, false, ◌||◌}
use mathlib.Core.Logic.{◌⊎◌, inl, inr}
use mathlib.Core.Option.{Option, none, some}
use mathlib.Core.List.{List, [], ◌∷◌, ◌++◌}
use native.Mathlib.Omega.{arith}
use text.Mathlib.Text.{◌==◌}
use text.Mathlib.TextEquality.{eq_iff}
use vexnor.Base.Tests.{if◌then◌else◌, Bool-cases}

abbrev pub Dict {ℓ} : Type ℓ → Type ℓ
Dict V = List (String × V)

module _ {ℓ} {V : Type ℓ} where
  -- m.get(key)
  unfoldable pub lookup : String → Dict V → Option V
  lookup key [] = none
  lookup key (entry ∷ rest) = if entry.0 == key then some entry.1 else lookup key rest

  -- m.set(key, value)
  unfoldable pub insert : String → V → Dict V → Dict V
  insert key value [] = (key, value) ∷ []
  insert key value (entry ∷ rest) =
      if entry.0 == key then (entry.0, value) ∷ rest else entry ∷ insert key value rest

  -- m.delete(key)
  unfoldable pub delete : String → Dict V → Dict V
  delete key [] = []
  delete key (entry ∷ entries) =
      let rest = delete key entries in if entry.0 == key then rest else entry ∷ rest

  -- m.keys()
  abbrev pub keys : Dict V → List String
  keys [] = []
  keys (entry ∷ rest) = entry.0 ∷ keys rest

  pub lookup-insert :
      (key other : String) (value : V) (entries : Dict V)
      → lookup other (insert key value entries)
        ≡ (if key == other then some value else lookup other entries)
  unfolding lookup insert
  lookup-insert key other value [] = refl
  lookup-insert key other value ((name, w) ∷ rest) = ground (
    arith,
    lookup-insert key other value rest,
    eq_iff name key,
    eq_iff name other,
    eq_iff key other,
  )

  pub lookup-delete :
      (k j : String) (m : Dict V) → lookup j (delete k m) ≡ (if k == j then none else lookup j m)
  unfolding lookup delete
  lookup-delete k j [] = ground arith
  lookup-delete k j ((i, w) ∷ m) =
      ground (arith, lookup-delete k j m, eq_iff i k, eq_iff i j, eq_iff k j)

pub ruleset dict_laws = (lookup-insert, lookup-delete)

-- s.has(k), for a set of strings
unfoldable pub has : String → List String → Bool
has k [] = false
has k (j ∷ s) = j == k || has k s

-- s.add(k)
unfoldable pub add : String → List String → List String
add k s = if has k s then s else s ++ k ∷ []

-- Every key stands once.
module _ {ℓ} {V : Type ℓ} where
  abbrev pub has_key : String → Dict V → Bool
  has_key k [] = false
  has_key k ((j, v) ∷ m) = j == k || has_key k m

  abbrev pub Distinct : Dict V → Type 0
  Distinct [] = Unit
  Distinct ((k, v) ∷ m) = (has_key k m ≡ false) × Distinct m

  pub lookup-has_key : (k : String) (m : Dict V) → has_key k m ≡ false → lookup k m ≡ none
  unfolding lookup
  lookup-has_key k [] h = refl
  lookup-has_key k ((j, v) ∷ m) h = ground (arith, lookup-has_key k m)

  pub has_key-insert :
      (k j : String) (v : V) (m : Dict V) → has_key j (insert k v m) ≡ (k == j || has_key j m)
  unfolding insert
  has_key-insert k j v [] = refl
  has_key-insert k j v ((i, w) ∷ m) =
      ground (arith, eq_iff k j, eq_iff i k, eq_iff i j, has_key-insert k j v m)

  pub has_key-lookup :
      (k : String) (m : Dict V) → has_key k m ≡ true → (v : V) × (lookup k m ≡ some v)
  unfolding lookup
  has_key-lookup k [] h = absurd (cc h)
  has_key-lookup k ((j, v) ∷ m) h = elim (Bool-cases (j == k)) [
    | inl e ↦ (v, rw e refl)
    | inr e ↦ rw e (has_key-lookup k m (rw e at h))
  ]

  pub lookup-some-has_key :
      (k : String) (v : V) (m : Dict V) → lookup k m ≡ some v → has_key k m ≡ true
  lookup-some-has_key k v m h = elim (Bool-cases (has_key k m)) [
    | inl e ↦ e
    | inr e ↦ absurd (cc (h, lookup-has_key k m e))
  ]

  -- What is found after an insertion is the new value, or was there.
  pub lookup-insert_cases :
      (k j : String) (v w : V) (m : Dict V)
      → lookup j (insert k v m) ≡ some w
      → ((k ≡ j) × (w ≡ v)) ⊎ (lookup j m ≡ some w)
  lookup-insert_cases k j v w m h = elim (Bool-cases (k == j)) [
    | inl e ↦ inl ((eq_iff k j).0 e, injective (rw (lookup-insert k j v m, e) at h))
    | inr e ↦ inr (rw (lookup-insert k j v m, e) at h)
  ]
    where
      injective : some v ≡ some w → w ≡ v
      injective e = cc

  pub Distinct-insert : (k : String) (v : V) (m : Dict V) → Distinct m → Distinct (insert k v m)
  unfolding insert
  Distinct-insert k v [] h = (refl, tt)
  Distinct-insert k v ((i, w) ∷ m) h =
      ground
        (arith, eq_iff i k, eq_iff k i, has_key-insert k i v m, h.0, h.1, Distinct-insert k v m h.1)

  has_key-delete :
      (k j : String) (m : Dict V) → has_key j m ≡ false → has_key j (delete k m) ≡ false
  unfolding delete
  has_key-delete k j [] h = refl
  has_key-delete k j ((i, w) ∷ m) h = ground (arith, has_key-delete k j m)

  pub Distinct-delete : (k : String) (m : Dict V) → Distinct m → Distinct (delete k m)
  unfolding delete
  Distinct-delete k [] h = tt
  Distinct-delete k ((i, w) ∷ m) h =
      ground (arith, has_key-delete k i m h.0, Distinct-delete k m h.1)
