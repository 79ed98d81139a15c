-- ===== src/Selection/Tests.antt =====
-- A catalog of two tables on which the theorems are applied.
use vexnor.Base.{◌≡◌, refl, inl, Bool, String, true, false, none, some, [], ◌∷◌, In}
use vexnor.Base.Dict.{lookup, insert, has, add}
use vexnor.SchemaGraph.Ident.{at_dot}
use vexnor.Selection.{
  Object, Scope, Catalog, CatalogObject, done, Selection, Flags, non_interactive, selection_of,
  available_in, reconcile, reconciled, validate_previous, duplicates, find_duplicates, by_id,
  sort_objects, insert_object, removed_from, resolve_selection, selected_ids, chosen,
  resolve_identity, find_or_match, resolve_all, without_duplicates, resolve_identities,
  included_ids, exclude_from, non_interactive_ids, ends_with,
}
use vexnor.Selection.Allowed.{reconcile-selected}

abbrev as_given : String → String → Bool
as_given a b = true

abbrev in_catalog : String → CatalogObject
in_catalog id = record { id = id; kind = "table"; schema = "public"; name = id }

abbrev shop : Catalog
shop = record {
  format_version = 1;
  fingerprint = "f";
  schemas = "public" ∷ [];
  objects = in_catalog "public.orders" ∷ in_catalog "public.users" ∷ [];
}

abbrev object : String → Bool → Object
object id selected = record { id = id; kind = "table"; selected = selected }

-- The stored selection knows one of them.
abbrev stored : Scope
stored = record {
  format_version = 1;
  catalog_format_version = 1;
  catalog_fingerprint = "e";
  objects = object "public.orders" true ∷ object "public.gone" true ∷ [];
}

abbrev kept : Selection
kept =
    selection_of as_given shop (object "public.orders" true ∷ object "public.users" false ∷ [])
      (object "public.users" false ∷ []) (object "public.gone" true ∷ [])

stored-kept : reconcile as_given shop stored ≡ done kept
unfolding reconcile reconciled validate_previous duplicates find_duplicates by_id available_in
    sort_objects insert_object removed_from lookup insert has add
stored-kept = refl

reconcile-selected_example :
    ((c : CatalogObject) × In c shop.objects × (c.id ≡ "public.orders"))
    × ((p : Object) × In p stored.objects × (p.id ≡ "public.orders") × (p.selected ≡ true))
reconcile-selected_example =
    reconcile-selected as_given shop stored kept (object "public.orders" true) stored-kept
      (inl refl)

abbrev not_users : Flags
not_users = record { include = none; exclude = some ("users" ∷ []); all = false }

abbrev asked : Selection
asked =
    selection_of as_given shop (object "public.orders" true ∷ object "public.users" false ∷ []) []
      []

trimmed : String → String
trimmed s = s

asked-done : resolve_selection as_given trimmed shop none (non_interactive not_users) ≡ done asked
unfolding resolve_selection trimmed selected_ids non_interactive_ids included_ids exclude_from
    chosen resolve_identities without_duplicates resolve_all resolve_identity find_or_match
    ends_with at_dot validate_previous duplicates find_duplicates by_id available_in sort_objects
    insert_object removed_from lookup insert has add
asked-done = refl
