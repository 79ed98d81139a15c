-- ===== src/Catalog/Groups.antt =====
-- How `createRelationships` groups foreign keys.
use mathlib.Core.List.{append_assoc, append-nil}
use vexnor.Base.{
  ◌≡◌, refl, sym, ap, ◌∙◌, ℕ, suc, String, Option, none, some, List, [], ◌∷◌, ◌++◌, if◌then◌else◌,
  ◌==◌, Bool-cases, inl, inr, eq_iff,
}
use vexnor.Base.Dict.{Dict, lookup, lookup-insert}
use vexnor.Catalog.Source.{SqlForeignKeyInfo}
use vexnor.Catalog.Columns.{Pair, Group, group_id, pair_of, group_or_new, add_key, group_keys}

abbrev pub pairs_in : Option Group → List Pair
pairs_in none = []
pairs_in (some g) = g.pairs

-- The pairs of the foreign keys with an identifier, in their order, with their indices.
abbrev pub pairs_with : (id : String) → (index : ℕ) → List SqlForeignKeyInfo → List Pair
pairs_with id index [] = []
pairs_with id index (k ∷ ks) =
    if group_id k == id
    then pair_of index k ∷ pairs_with id (suc index) ks
    else pairs_with id (suc index) ks

pairs-group_or_new :
    (k : SqlForeignKeyInfo) (o : Option Group) → (group_or_new k o).pairs ≡ pairs_in o
pairs-group_or_new k none = refl
pairs-group_or_new k (some g) = refl

pairs-add_key :
    (id : String) (index : ℕ) (k : SqlForeignKeyInfo) (groups : Dict Group)
    → pairs_in (lookup id (add_key index k groups)) ≡ (
        if group_id k == id
        then pairs_in (lookup id groups) ++ pair_of index k ∷ []
        else pairs_in (lookup id groups))
unfolding add_key
pairs-add_key id index k groups = elim (Bool-cases (group_id k == id)) [
  | inl e ↦
      rw (lookup-insert (group_id k) id _ groups, e)
        (ap (λ l. l ++ pair_of index k ∷ [])
          (pairs-group_or_new k (lookup (group_id k) groups)
            ∙ ap (λ i. pairs_in (lookup i groups)) ((eq_iff (group_id k) id).0 e)))
  | inr e ↦ rw (lookup-insert (group_id k) id _ groups, e) refl
]

group_keys_from :
    (id : String) (index : ℕ) (ks : List SqlForeignKeyInfo) (groups : Dict Group)
    → pairs_in (lookup id (group_keys index ks groups))
      ≡ pairs_in (lookup id groups) ++ pairs_with id index ks
unfolding group_keys
group_keys_from id index [] groups = sym (append-nil (pairs_in (lookup id groups)))
group_keys_from id index (k ∷ ks) groups =
    group_keys_from id (suc index) ks (add_key index k groups)
    ∙ elim (Bool-cases (group_id k == id)) [
      | inl e ↦
          rw (pairs-add_key id index k groups, e)
            (append_assoc (pairs_in (lookup id groups)) (pair_of index k ∷ [])
              (pairs_with id (suc index) ks))
      | inr e ↦ rw (pairs-add_key id index k groups, e) refl
    ]

-- Each group has the column pairs of exactly the foreign keys with its constraint and target, in the
-- order of the database, and with the position there where the database gives no ordinal.
pub pairs-group_keys :
    (id : String) (ks : List SqlForeignKeyInfo)
    → pairs_in (lookup id (group_keys 0 ks [])) ≡ pairs_with id 0 ks
unfolding lookup
pairs-group_keys id ks = group_keys_from id 0 ks []
