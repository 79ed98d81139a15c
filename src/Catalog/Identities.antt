-- ===== src/Catalog/Identities.antt =====
-- What the checks of identities tell apart.
use vexnor.Base.{
  ◌≡◌, ◌⊎◌, inl, inr, refl, sym, subst, ap, String, true, Bool-cases, List, [], ◌∷◌, ◌++◌,
}
use vexnor.Base.Dict.{has}
use vexnor.Base.Unique.{Unique, Unique-snoc, add-new}
use vexnor.Errors.{Outcome, returned, threw}
use vexnor.Catalog.Source.{SqlSchema}
use vexnor.Catalog.{
  duplicate, assert_unseen, assert_unique, table_ids, enum_ids, assert_unique_object_ids,
}

-- The first text of the list that stands before it already, with the distinct texts before it.
pub record Repeats (value : String) (values : List String) : Type 0 where
  pub before : List String
  pub after : List String
  pub parts : values ≡ before ++ value ∷ after
  pub once : Unique before
  pub again : has value before ≡ true

-- The two results of the check, each with what it tells of the list.
abbrev pub Verdict : String → List String → Outcome {0} Unit → Type 0
Verdict kind values o =
    (Unique values × (o ≡ returned tt))
    ⊎ ((value : String) × Repeats value values × (o ≡ threw (duplicate kind value)))

append_assoc :
    (seen : List String) (value : String) (values : List String)
    → (seen ++ value ∷ []) ++ values ≡ seen ++ value ∷ values
append_assoc [] value values = refl
append_assoc (x ∷ seen) value values = ap (λ xs. x ∷ xs) (append_assoc seen value values)

append_nil : (xs : List String) → xs ++ [] ≡ xs
append_nil [] = refl
append_nil (x ∷ xs) = ap (λ ys. x ∷ ys) (append_nil xs)

assert_unseen-Verdict :
    (kind : String) (seen values : List String)
    → Unique seen
    → Verdict kind (seen ++ values) (assert_unseen kind seen values)
unfolding assert_unseen
assert_unseen-Verdict kind seen [] u = inl (subst Unique (sym (append_nil seen)) u, refl)
assert_unseen-Verdict kind seen (value ∷ values) u = elim (Bool-cases (has value seen)) [
  | inl e ↦ inr (
    value,
    record { before = seen; after = values; parts = refl; once = u; again = e },
    rw e refl,
  )
  | inr e ↦
      rw (e, add-new value seen e)
        (subst (λ xs. Verdict kind xs (assert_unseen kind (seen ++ value ∷ []) values))
          (append_assoc seen value values)
          (assert_unseen-Verdict kind (seen ++ value ∷ []) values (Unique-snoc value seen u e)))
]

-- `assertUnique` returns where no text stands twice, and otherwise throws the error that names the
-- first text that stood before.
pub assert_unique-Verdict :
    (kind : String) (values : List String) → Verdict kind values (assert_unique kind values)
unfolding assert_unique assert_unseen
assert_unique-Verdict kind values = assert_unseen-Verdict kind [] values tt

-- The check of a schema returns where the identities of its tables, and those of its enums, are
-- distinct. Otherwise it throws for the first table whose identity stood before, and only where
-- there is none for the first such enum.
pub assert_unique_object_ids-Verdict :
    (schema : SqlSchema)
    → (Unique (table_ids schema)
        × Verdict "schema enum" (enum_ids schema) (assert_unique_object_ids schema))
      ⊎ ((id : String) × Repeats id (table_ids schema)
          × (assert_unique_object_ids schema ≡ threw (duplicate "schema object" id)))
unfolding assert_unique_object_ids
assert_unique_object_ids-Verdict schema =
    elim (assert_unique-Verdict "schema object" (table_ids schema)) [
      | inl v ↦ inl (v.0, rw v.1 (assert_unique-Verdict "schema enum" (enum_ids schema)))
      | inr (id, r, e) ↦ inr (id, r, rw e refl)
    ]
