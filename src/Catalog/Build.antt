-- ===== src/Catalog/Build.antt =====
-- schema/schema-catalog.ts: `createSchemaCatalog`. The fingerprint is a given function of the
-- contents, the hash of their JSON.
use Prim.Native.String.{◌++◌ as str_append}
use vexnor.Base.{
  ℕ, suc, String, Bool, true, false, Option, none, some, List, [], ◌∷◌, ◌++◌, map, if◌then◌else◌,
  ltb, length, ◌==◌,
}
use vexnor.Base.Dict.{has}
use vexnor.Errors.{Outcome, returned, threw, or_else}
use vexnor.Catalog.Source.{
  SqlTableInfo, SqlEnumInfo, SqlEnumValue, SqlSchema, TableType, table, view,
}
use vexnor.Catalog.Content.{
  CatalogObject, CatalogColumn, CatalogEnum, CatalogPlugin, CatalogPrimaryKey, CatalogRelationship,
  CatalogWarning, Contents, Catalog, missing_plugin_version,
}
use vexnor.Catalog.Sorting.{sort, compare_by, compare_ordinal_then}
use vexnor.Catalog.Columns.{
  Environment, sorted_columns, create_primary_key, create_relationships, as_set,
}
use vexnor.Catalog.{qualify, assert_unique_object_ids, assert_unique_column_ids}

abbrev pub bind : {A B : Type 0} → Outcome A → (A → Outcome B) → Outcome B
bind (returned a) f = f a
bind (threw e) f = threw e

abbrev pub is_table : TableType → Bool
is_table table = true
is_table view = false

abbrev pub is_some : {A : Type 0} → Option A → Bool
is_some none = false
is_some (some a) = true

-- columns.flatMap((column) => column.warnings)
abbrev pub all_warnings : List CatalogColumn → List CatalogWarning
all_warnings [] = []
all_warnings (c ∷ cs) = c.warnings ++ all_warnings cs

abbrev pub table_id : SqlTableInfo → String
table_id t = qualify t.table_schema t.table_name

unfoldable pub object_with : Environment → SqlTableInfo → Option CatalogPrimaryKey → CatalogObject
unfolding sorted_columns create_relationships
object_with e t primary_key =
    let columns = sorted_columns e (table_id t) t.columns in
    let relationships = create_relationships e (table_id t) t.foreign_keys in
    record {
      id = table_id t;
      schema = t.table_schema;
      name = t.table_name;
      kind = t.table_type;
      mapping_name = e.pascal t.table_name;
      columns = columns;
      primary_key = primary_key;
      relationships = relationships;
      capabilities = record {
        insertable = is_table t.table_type;
        updatable = is_table t.table_type;
        deletable = is_table t.table_type;
        stable_identity = is_some primary_key;
        automatic_join = ltb 0 (length relationships);
      };
      warnings = all_warnings columns;
    }

-- The object of a table.
unfoldable pub object_of : Environment → SqlTableInfo → Outcome CatalogObject
unfolding object_with create_primary_key assert_unique_column_ids
object_of e t =
    bind (assert_unique_column_ids t)
      (λ _. bind (create_primary_key e t.primary_keys) (λ key. returned (object_with e t key)))

-- tables.map(…), which throws where one call does
unfoldable pub map_outcome : {A B : Type 0} → (A → Outcome B) → List A → Outcome (List B)
map_outcome f [] = returned []
map_outcome f (x ∷ xs) = bind (f x) (λ b. bind (map_outcome f xs) (λ bs. returned (b ∷ bs)))

unfoldable pub label_entries : (index : ℕ) → List SqlEnumValue → List (String × ℕ)
label_entries index [] = []
label_entries index (v ∷ vs) =
    (v.enum_label, or_else v.ordinal_position index) ∷ label_entries (suc index) vs

-- The entry of an enum.
unfoldable pub enum_of : Environment → SqlEnumInfo → CatalogEnum
unfolding label_entries sort
enum_of e i = record {
  id = qualify i.enum_schema i.enum_name;
  schema = i.enum_schema;
  name = i.enum_name;
  values =
      map (λ (x : String × ℕ). x.0)
        (sort (compare_ordinal_then e.locale_gt (λ (x : String × ℕ). x.1) (λ (x : String × ℕ). x.0))
          (label_entries 0 i.enum_values));
}

-- `joinableObjects`, as a list
abbrev pub joined_by : List CatalogRelationship → List String
joined_by [] = []
joined_by (r ∷ rs) = r.from_object ∷ r.to_object ∷ joined_by rs

abbrev pub joinable : List CatalogObject → List String
joinable [] = []
joinable (o ∷ os) = joined_by o.relationships ++ joinable os

abbrev pub with_join : List String → CatalogObject → CatalogObject
unfolding has
with_join names o = record o {
  capabilities = record o.capabilities { automatic_join = has o.id names };
}

abbrev pub plugin_warnings : CatalogPlugin → List CatalogWarning
plugin_warnings p =
    if p.version == "unknown"
    then record {
      code = missing_plugin_version;
      message = str_append "Plugin " (str_append p.name " did not declare a version.");
    }
      ∷ []
    else []

-- The catalog of the sorted objects and enums.
unfoldable pub catalog_of :
    Environment
    → (fingerprint : Contents → String) → List CatalogObject
    → List CatalogEnum
    → Catalog
unfolding with_join as_set sort
catalog_of e fingerprint sorted enums =
    let objects = map (with_join (joinable sorted)) sorted in
    let contents : Contents = record {
      plugin = e.plugin;
      schemas = sort e.code_unit_gt (
          as_set [] (
            map (λ (o : CatalogObject). o.schema) objects
            ++ map (λ (x : CatalogEnum). x.schema) enums));
      enums = enums;
      objects = objects;
      warnings = plugin_warnings e.plugin;
    } in
    record { fingerprint = fingerprint contents; contents = contents }

abbrev pub sorted_objects : Environment → List CatalogObject → List CatalogObject
unfolding sort
sorted_objects e os = sort (compare_by e.locale_gt (λ (o : CatalogObject). o.id)) os

abbrev pub sorted_enums : Environment → List SqlEnumInfo → List CatalogEnum
unfolding sort enum_of
sorted_enums e is = sort (compare_by e.locale_gt (λ (x : CatalogEnum). x.id)) (map (enum_of e) is)

-- `createSchemaCatalog`
unfoldable pub create_schema_catalog :
    Environment → (fingerprint : Contents → String) → SqlSchema → Outcome Catalog
unfolding assert_unique_object_ids map_outcome object_of catalog_of sorted_objects sorted_enums
create_schema_catalog e fingerprint schema = bind (assert_unique_object_ids schema) (λ _.
    bind (map_outcome (object_of e) schema.tables) (λ os.
      returned (catalog_of e fingerprint (sorted_objects e os) (sorted_enums e schema.enums))))
