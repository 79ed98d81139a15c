-- ===== src/Catalog/Tests.antt =====
-- Schemas on which the theorems are applied.
use vexnor.Base.{◌≡◌, ◌⊎◌, refl, String, true, false, none, some, List, [], ◌∷◌, map}
use vexnor.Base.Unique.{Unique}
use vexnor.Base.TextOrder.{text_gt, text_gt_one_way, text_gt_total, text_gt_transitive}
use vexnor.Base.Dict.{has, add, lookup}
use vexnor.Errors.{returned, threw}
use vexnor.Catalog.Source.{
  SqlColumnInfo, SqlTableInfo, SqlEnumInfo, SqlSchema, SqlForeignKeyInfo, table,
}
use vexnor.Catalog.Content.{Contents, Catalog, CatalogObject}
use vexnor.Catalog.Sorting.{sort, place}
use vexnor.Catalog.Canonical.{done, keep, swap, IsOrder}
use vexnor.Catalog.Columns.{Environment, create_primary_key, group_id, pair_of, group_keys}
use vexnor.Catalog.Build.{
  create_schema_catalog, catalog_of, sorted_objects, sorted_enums, object_with, object_of,
  map_outcome,
}
use vexnor.Catalog.Independent.{create_schema_catalog-Reordered}
use vexnor.Catalog.Groups.{pairs_in, pairs_with, pairs-group_keys}
use vexnor.Catalog.{
  duplicate, assert_unseen, assert_unique, table_ids, enum_ids, assert_unique_object_ids,
  assert_unique_column_ids,
}
use vexnor.Catalog.Identities.{Verdict, Repeats, assert_unique_object_ids-Verdict}

abbrev column : String → SqlColumnInfo
column name = record {
  column_default = none;
  column_name = name;
  domain_name = none;
  udt_name = some "text";
  is_nullable = false;
  is_updatable = true;
  data_type = none;
  generation_expression = none;
  identity_generation = none;
  is_generated = none;
  is_identity = none;
  ordinal_position = none;
}

abbrev named : String → List SqlColumnInfo → List SqlForeignKeyInfo → SqlTableInfo
named name columns keys = record {
  table_name = name;
  table_type = table;
  columns = columns;
  table_schema = "public";
  primary_keys = [];
  foreign_keys = keys;
}

abbrev users : SqlTableInfo
users = named "users" (column "id" ∷ column "name" ∷ column "id" ∷ []) []

abbrev role : SqlEnumInfo
role = record { enum_schema = "public"; enum_name = "role"; enum_values = [] }

abbrev doubled : SqlSchema
doubled = record { tables = users ∷ users ∷ []; enums = role ∷ [] }

doubled_test : assert_unique_object_ids doubled ≡ threw (duplicate "schema object" "public.users")
unfolding assert_unique_object_ids assert_unique assert_unseen has add
doubled_test = refl

columns_test : assert_unique_column_ids users ≡ threw (duplicate "column in public.users" "id")
unfolding assert_unique_column_ids assert_unique assert_unseen has add
columns_test = refl

assert_unique_object_ids-Verdict_example :
    (Unique (table_ids doubled)
      × Verdict "schema enum" (enum_ids doubled) (assert_unique_object_ids doubled))
    ⊎ ((id : String) × Repeats id (table_ids doubled)
        × (assert_unique_object_ids doubled ≡ threw (duplicate "schema object" id)))
assert_unique_object_ids-Verdict_example = assert_unique_object_ids-Verdict doubled

abbrev environment : Environment
environment = record {
  plugin = record { name = "pg"; version = "1"; driver = "pg"; dialect = "postgresql" };
  column_type = λ c. record {
    type = "string";
    udt = none;
    is_array = none;
    ts_type_select = none;
    ts_type_insert = none;
    ts_import = none;
    type_tree = none;
  };
  camel_case_columns = false;
  camel = λ s. s;
  pascal = λ s. s;
  locale_gt = text_gt;
  code_unit_gt = text_gt;
}

text_gt-IsOrder : IsOrder text_gt
text_gt-IsOrder = record {
  one_way = text_gt_one_way;
  total = text_gt_total;
  transitive = text_gt_transitive;
}

abbrev to_orders : String → SqlForeignKeyInfo
to_orders column = record {
  constraint_name = "fk";
  column_name = column;
  referenced_table_schema = "public";
  referenced_table_name = "orders";
  referenced_column_name = column;
  ordinal_position = none;
}

abbrev items : SqlTableInfo
items = named "items" (column "id" ∷ []) (to_orders "a" ∷ to_orders "b" ∷ [])

abbrev orders : SqlTableInfo
orders = named "orders" (column "a" ∷ column "b" ∷ []) []

abbrev mark : Contents → String
mark contents = "fingerprint"

abbrev cataloged : Catalog
cataloged =
    catalog_of environment mark
      (sorted_objects environment
        (object_with environment orders none ∷ object_with environment items none ∷ []))
      (sorted_enums environment (role ∷ []))

cataloged-returned :
    create_schema_catalog environment mark
      (record { tables = orders ∷ items ∷ []; enums = role ∷ [] })
    ≡ returned cataloged
unfolding create_schema_catalog map_outcome object_of create_primary_key assert_unique_object_ids
    assert_unique_column_ids assert_unique assert_unseen has add
cataloged-returned = refl

create_schema_catalog-Reordered_example :
    create_schema_catalog environment mark
      (record { tables = items ∷ orders ∷ []; enums = role ∷ [] })
    ≡ returned cataloged
create_schema_catalog-Reordered_example =
    create_schema_catalog-Reordered environment mark cataloged text_gt-IsOrder
      (swap orders items []) (keep role done) cataloged-returned

sorted_test :
    map
      (λ (o : CatalogObject). o.id)
      (sorted_objects environment
        (object_with environment orders none ∷ object_with environment items none ∷ []))
    ≡ "public.items" ∷ "public.orders" ∷ []
unfolding object_with sort place text_gt
sorted_test = refl

pairs-group_keys_example :
    pairs_in (lookup (group_id (to_orders "a")) (group_keys 0 items.foreign_keys []))
    ≡ pairs_with (group_id (to_orders "a")) 0 items.foreign_keys
pairs-group_keys_example = pairs-group_keys (group_id (to_orders "a")) items.foreign_keys

pairs_test :
    pairs_with (group_id (to_orders "a")) 0 items.foreign_keys
    ≡ pair_of 0 (to_orders "a") ∷ pair_of 1 (to_orders "b") ∷ []
pairs_test = refl
