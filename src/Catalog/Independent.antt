-- ===== src/Catalog/Independent.antt =====
-- The catalog does not depend on the order in which a database lists its tables and enums.
use vexnor.Base.{
  ◌≡◌, inl, inr, refl, sym, subst, ap, ◌∙◌, String, false, List, [], ◌∷◌, ◌++◌, map, arith, eq_iff,
  eq_refl,
}
use vexnor.Base.Dict.{has}
use vexnor.Base.Unique.{Unique}
use vexnor.SchemaGraph.Edges.{has-append}
use vexnor.Errors.{Outcome, returned, threw}
use vexnor.Catalog.Source.{SqlTableInfo, SqlEnumInfo, SqlSchema}
use vexnor.Catalog.Content.{CatalogObject, CatalogEnum, Contents, Catalog}
use vexnor.Catalog.Canonical.{
  Reordered, done, keep, swap, then_also, IsOrder, Reordered-map, Unique-Reordered, sort-Reordered,
}
use vexnor.Catalog.Columns.{Environment, create_primary_key}
use vexnor.Catalog.Build.{
  bind, object_with, object_of, map_outcome, enum_of, table_id, create_schema_catalog,
}
use vexnor.Catalog.Identities.{Repeats, assert_unique_object_ids-Verdict}
use vexnor.Catalog.{
  qualify, table_ids, enum_ids, assert_unique_object_ids, assert_unique_column_ids,
}

bind-returned :
    {A B : Type 0} (o : Outcome A) (f : A → Outcome B) (b : B)
    → bind o f ≡ returned b
    → (a : A) × (o ≡ returned a) × (f a ≡ returned b)
bind-returned (returned a) f b h = (a, refl, h)
bind-returned (threw e) f b h = absurd (cc h)

returned_injective : {A : Type 0} (a b : A) → returned a ≡ returned b → a ≡ b
returned_injective a b e = cc

not_again :
    (value : String) (before after : List String)
    → Unique (before ++ value ∷ after)
    → has value before ≡ false
unfolding has
not_again value [] after u = refl
not_again value (x ∷ before) after u = ground (
  arith,
  not_again value before after u.1,
  u.0,
  has-append x before (value ∷ after),
  eq_iff x value,
  eq_iff value x,
  eq_refl x,
)

Unique-Repeats : (value : String) (values : List String) → Unique values → Repeats value values → ⊥
Unique-Repeats value values u r =
    cc (r.again, not_again value r.before r.after (subst Unique r.parts u))

-- The check of identities returns where both lists are distinct.
ids_pass :
    (schema : SqlSchema)
    → Unique (table_ids schema)
    → Unique (enum_ids schema)
    → assert_unique_object_ids schema ≡ returned tt
ids_pass schema u w = elim (assert_unique_object_ids-Verdict schema) [
  | inl (a, inl (b, e)) ↦ e
  | inl (a, inr (id, r, e)) ↦ absurd (Unique-Repeats id (enum_ids schema) w r)
  | inr (id, r, e) ↦ absurd (Unique-Repeats id (table_ids schema) u r)
]

ids_passed :
    (schema : SqlSchema) (u : Unit {0})
    → assert_unique_object_ids schema ≡ returned u
    → Unique (table_ids schema) × Unique (enum_ids schema)
ids_passed schema u h = elim (assert_unique_object_ids-Verdict schema) [
  | inl (a, inl (b, e)) ↦ (a, b)
  | inl (a, inr (id, r, e)) ↦ absurd (cc (h, e))
  | inr (id, r, e) ↦ absurd (cc (h, e))
]

module _ {A B : Type 0} (f : A → Outcome B) where
  map_outcome-cons :
      (x : A) (xs : List A) (bs : List B)
      → map_outcome f (x ∷ xs) ≡ returned bs
      → (b : B) × (rest : List B) × (f x ≡ returned b)
        × (map_outcome f xs ≡ returned rest)
        × (b ∷ rest ≡ bs)
  unfolding map_outcome
  map_outcome-cons x xs bs h =
      let (b, p, k) = bind-returned (f x) _ bs h in
      let (rest, q, e) = bind-returned (map_outcome f xs) _ bs k in
      (b, rest, p, q, returned_injective (b ∷ rest) bs e)

  map_outcome-returned :
      (x : A) (xs : List A) (b : B) (rest : List B)
      → f x ≡ returned b
      → map_outcome f xs ≡ returned rest
      → map_outcome f (x ∷ xs) ≡ returned (b ∷ rest)
  unfolding map_outcome
  map_outcome-returned x xs b rest p q = rw (p, q) refl

  -- The results of a reordered list are the results, reordered.
  map_outcome-Reordered :
      {xs ys : List A} (bs : List B)
      → Reordered xs ys
      → map_outcome f xs ≡ returned bs
      → (cs : List B) × (map_outcome f ys ≡ returned cs) × Reordered bs cs
  map_outcome-Reordered bs done h =
      (bs, h, subst (λ l. Reordered l l) (returned_injective [] bs (unfold map_outcome in h)) done)
  map_outcome-Reordered bs (keep x {xs = xs} {ys = ys} r) h =
      let (b, rest, p, q, e) = map_outcome-cons x xs bs h in
      let (cs, k, s) = map_outcome-Reordered rest r q in
      (b ∷ cs, map_outcome-returned x ys b cs p k, subst (λ l. Reordered l (b ∷ cs)) e (keep b s))
  map_outcome-Reordered bs (swap x y xs) h =
      let (b, rest, p, q, e) = map_outcome-cons x (y ∷ xs) bs h in
      let (c, more, p', q', e') = map_outcome-cons y xs rest q in
      (
        c ∷ b ∷ more,
        map_outcome-returned y (x ∷ xs) c (b ∷ more) p' (map_outcome-returned x xs b more p q'),
        subst (λ l. Reordered l (c ∷ b ∷ more)) (ap (λ l. b ∷ l) e' ∙ e) (swap b c more),
      )
  map_outcome-Reordered bs (then_also r s) h =
      let (cs, k, t) = map_outcome-Reordered bs r h in
      let (ds, l, u) = map_outcome-Reordered cs s k in (ds, l, then_also t u)

object_of-id :
    (e : Environment) (t : SqlTableInfo) (o : CatalogObject)
    → object_of e t ≡ returned o
    → o.id ≡ table_id t
unfolding object_of object_with
object_of-id e t o h =
    let (u, p, k) = bind-returned (assert_unique_column_ids t) _ o h in
    let (key, q, l) = bind-returned (create_primary_key e t.primary_keys) _ o k in
    sym (ap (λ (x : CatalogObject). x.id) (returned_injective (object_with e t key) o l))

objects-ids :
    (e : Environment) (ts : List SqlTableInfo) (os : List CatalogObject)
    → map_outcome (object_of e) ts ≡ returned os
    → map (λ (o : CatalogObject). o.id) os ≡ map table_id ts
objects-ids e [] os h =
    subst (λ l. map (λ (o : CatalogObject). o.id) l ≡ [])
      (returned_injective [] os (unfold map_outcome in h)) refl
objects-ids e (t ∷ ts) os h =
    let (o, rest, p, q, k) = map_outcome-cons (object_of e) t ts os h in
    subst (λ l. map (λ (x : CatalogObject). x.id) l ≡ table_id t ∷ map table_id ts) k
      (ap (λ i. i ∷ map (λ (x : CatalogObject). x.id) rest) (object_of-id e t o p)
        ∙ ap (λ l. table_id t ∷ l) (objects-ids e ts rest q))

enums-ids :
    (e : Environment) (is : List SqlEnumInfo)
    → map (λ (x : CatalogEnum). x.id) (map (enum_of e) is)
      ≡ enum_ids (record { tables = []; enums = is })
unfolding enum_of
enums-ids e [] = refl
enums-ids e (i ∷ is) = ap (λ l. (enum_of e i).id ∷ l) (enums-ids e is)

-- Where `createSchemaCatalog` returns a catalog, it returns the same one, with the same fingerprint,
-- for the tables and the enums in any other order, provided that localeCompare orders distinct
-- texts strictly.
pub create_schema_catalog-Reordered :
    (e : Environment) (fingerprint : Contents → String) (c : Catalog) {ts us : List SqlTableInfo}
    {is js : List SqlEnumInfo}
    → IsOrder e.locale_gt
    → Reordered ts us
    → Reordered is js
    → create_schema_catalog e fingerprint (record { tables = ts; enums = is }) ≡ returned c
    → create_schema_catalog e fingerprint (record { tables = us; enums = js }) ≡ returned c
unfolding create_schema_catalog
create_schema_catalog-Reordered e fingerprint c {ts = ts} {us = us} {is = is} {js = js} order r s
      h =
    let before : SqlSchema = record { tables = ts; enums = is } in
    let after : SqlSchema = record { tables = us; enums = js } in
    let (u, p, k) = bind-returned (assert_unique_object_ids before) _ c h in
    let (os, q, l) = bind-returned (map_outcome (object_of e) ts) _ c k in
    let (tables, enums) = ids_passed before u p in
    let (ps, q', t) = map_outcome-Reordered (object_of e) os r q in
    let same_objects =
      sort-Reordered e.locale_gt order (λ (o : CatalogObject). o.id) t
        (subst Unique (sym (objects-ids e ts os q)) tables) in
    let same_enums =
      sort-Reordered e.locale_gt order (λ (x : CatalogEnum). x.id) (Reordered-map (enum_of e) s)
        (subst Unique (sym (enums-ids e is)) enums) in
    rw
      (
        ids_pass after (Unique-Reordered (Reordered-map table_id r) tables) (
            Unique-Reordered
              (Reordered-map (λ (i : SqlEnumInfo). qualify i.enum_schema i.enum_name) s) enums),
        q',
        ← same_objects,
        ← same_enums,
      )
      l
