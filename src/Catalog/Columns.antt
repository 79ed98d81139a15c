-- ===== src/Catalog/Columns.antt =====
-- schema/schema-catalog.ts: the columns of an object, its primary key and its relationships.
use Prim.Native.String.{◌++◌ as str_append}
use vexnor.Base.{
  ℕ, suc, ◌+◌, String, Bool, true, false, ◌&&◌, not, Option, none, some, List, [], ◌∷◌, ◌++◌, map,
  if◌then◌else◌, ◌==◌,
}
use vexnor.Base.Dict.{Dict, lookup, insert, add}
use vexnor.Errors.{Outcome, returned, threw, other_error, or_else}
use vexnor.Catalog.Source.{
  SqlColumnInfo, SqlPrimaryKeyInfo, SqlForeignKeyInfo, TypeTree, TreeFields, SqlColumnType,
}
use vexnor.Catalog.Content.{
  CatalogTree, CatalogTreeFields, CatalogColumn, CatalogPrimaryKey, CatalogRelationship,
  CatalogWarning, CustomType, unknown_column_type, CatalogPlugin,
}
use vexnor.Catalog.Sorting.{sort, compare_by, compare_ordinal_then}
use vexnor.Catalog.{qualify}

-- The plugin, the naming, and the third-party and system calls: case conversion, the comparison of
-- texts by localeCompare and by `sort`, and the hash of the contents.
pub record Environment : Type 0 where
  pub plugin : CatalogPlugin
  pub column_type : SqlColumnInfo → SqlColumnType
  pub camel_case_columns : Bool
  pub camel : String → String
  pub pascal : String → String
  pub locale_gt : String → String → Bool
  pub code_unit_gt : String → String → Bool

abbrev pub mapping_of : Environment → String → String
mapping_of e name = if e.camel_case_columns then e.camel name else name

-- `catalogTypeTree` and `catalogTypeTreeFields`
unfoldable mutual
  pub catalog_tree : (String → String) → TypeTree → CatalogTree
  catalog_tree mapping (TypeTree.scalar type udt) = CatalogTree.scalar type udt
  catalog_tree mapping (TypeTree.struct fields) = CatalogTree.struct (catalog_fields mapping fields)
  catalog_tree mapping (TypeTree.list value length) =
      CatalogTree.list (catalog_tree mapping value) length
  catalog_tree mapping (TypeTree.map_of key value) =
      CatalogTree.map_of (catalog_tree mapping key) (catalog_tree mapping value)
  catalog_tree mapping (TypeTree.union members) = CatalogTree.union (catalog_fields mapping members)

  pub catalog_fields : (String → String) → TreeFields → CatalogTreeFields
  catalog_fields mapping TreeFields.end = CatalogTreeFields.end
  catalog_fields mapping (TreeFields.field name value rest) =
      CatalogTreeFields.field name (mapping name) (catalog_tree mapping value)
        (catalog_fields mapping rest)

-- !text, for an optional text
abbrev pub missing : Option String → Bool
missing none = true
missing (some s) = s == ""

-- `customType`
unfoldable pub custom_type : SqlColumnType → Option CustomType
custom_type t =
    if missing t.udt && missing t.ts_type_select && missing t.ts_type_insert && missing t.ts_import
    then none
    else some (record {
      udt = t.udt;
      select = t.ts_type_select;
      insert = t.ts_type_insert;
      import = t.ts_import;
    })

-- `columnWarnings`
unfoldable pub column_warnings :
    (object_id column_name : String) → SqlColumnType → List CatalogWarning
column_warnings object_id column_name t =
    if t.type == "unknown"
    then record {
      code = unknown_column_type;
      message = str_append "Column " (
          str_append object_id (
            str_append "."
              (str_append column_name " uses an unsupported or unknown native type.")));
    }
      ∷ []
    else []

abbrev pub is_yes : Option String → Bool
is_yes none = false
is_yes (some s) = s == "YES"

-- column.is_generated !== undefined && … !== "NEVER" && … !== "NO"
abbrev pub is_generated_by : Option String → Bool
is_generated_by none = false
is_generated_by (some s) = not (s == "NEVER") && not (s == "NO")

abbrev pub or_option : Option String → Option String → Option String
or_option none b = b
or_option (some a) b = some a

abbrev pub map_tree : (TypeTree → CatalogTree) → Option TypeTree → Option CatalogTree
map_tree f none = none
map_tree f (some t) = some (f t)

-- The column at an index of a table.
unfoldable pub column_of :
    Environment → (object_id : String) → (index : ℕ) → SqlColumnInfo → CatalogColumn
unfolding catalog_tree custom_type column_warnings
column_of e object_id index c =
    let t = e.column_type c in
    record {
      id = str_append object_id (str_append "." c.column_name);
      physical_name = c.column_name;
      mapping_name = mapping_of e c.column_name;
      native_type = or_else (or_option c.udt_name c.data_type) "unknown";
      data_type = c.data_type;
      normalized_type = t.type;
      ordinal_position = or_else c.ordinal_position (index + 1);
      nullable = c.is_nullable;
      default = c.column_default;
      generated = is_generated_by c.is_generated;
      generation_expression = c.generation_expression;
      identity = is_yes c.is_identity;
      identity_generation = c.identity_generation;
      updatable = c.is_updatable;
      domain_name = c.domain_name;
      array = or_else t.is_array false;
      type_tree = map_tree (catalog_tree (mapping_of e)) t.type_tree;
      custom_type = custom_type t;
      warnings = column_warnings object_id c.column_name t;
    }

unfoldable pub columns_from :
    Environment → (object_id : String) → (index : ℕ) → List SqlColumnInfo → List CatalogColumn
unfolding column_of
columns_from e object_id index [] = []
columns_from e object_id index (c ∷ cs) =
    column_of e object_id index c ∷ columns_from e object_id (suc index) cs

-- The columns in the order of their positions, then of their names.
unfoldable pub sorted_columns :
    Environment → (object_id : String) → List SqlColumnInfo → List CatalogColumn
unfolding columns_from sort
sorted_columns e object_id cs =
    sort
      (compare_ordinal_then e.locale_gt (λ (c : CatalogColumn). c.ordinal_position)
        (λ (c : CatalogColumn). c.physical_name))
      (columns_from e object_id 0 cs)

-- new Set(names), in the order of insertion
unfoldable pub as_set : List String → List String → List String
as_set seen [] = seen
as_set seen (s ∷ ss) = as_set (add s seen) ss

-- The names of the key's columns with their ordinals.
unfoldable pub key_entries : (index : ℕ) → List SqlPrimaryKeyInfo → List (String × ℕ)
key_entries index [] = []
key_entries index (k ∷ ks) =
    (k.column_name, or_else k.ordinal_position index) ∷ key_entries (suc index) ks

abbrev pub key_of :
    Environment → List SqlPrimaryKeyInfo → List String → Outcome (Option CatalogPrimaryKey)
unfolding key_entries sort
key_of e ks [] = threw (other_error "Expected one primary-key constraint")
key_of e ks (name ∷ []) = returned (
    some (record {
      constraint_name = name;
      columns =
          map (λ (x : String × ℕ). x.0)
            (sort
              (compare_ordinal_then e.locale_gt (λ (x : String × ℕ). x.1) (λ (x : String × ℕ). x.0))
              (key_entries 0 ks));
    }))
key_of e ks (name ∷ other ∷ names) = threw (other_error "Expected one primary-key constraint")

-- `createPrimaryKey`
unfoldable pub create_primary_key :
    Environment → List SqlPrimaryKeyInfo → Outcome (Option CatalogPrimaryKey)
unfolding key_of as_set
create_primary_key e [] = returned none
create_primary_key e (k ∷ ks) =
    key_of e (k ∷ ks) (as_set [] (map (λ (x : SqlPrimaryKeyInfo). x.constraint_name) (k ∷ ks)))

pub record Pair : Type 0 where
  pub from : String
  pub to : String
  pub ordinal : ℕ

-- A value of the map `groups`.
pub record Group : Type 0 where
  pub constraint_name : String
  pub to_object : String
  pub pairs : List Pair

abbrev pub target_of : SqlForeignKeyInfo → String
target_of k = qualify k.referenced_table_schema k.referenced_table_name

-- `${foreignKey.constraint_name}\u0000${toObject}`
abbrev pub nul_joined : String → String → String
nul_joined a b = str_append a (str_append "\0" b)

abbrev pub group_id : SqlForeignKeyInfo → String
group_id k = nul_joined k.constraint_name (target_of k)

abbrev pub pair_of : (index : ℕ) → SqlForeignKeyInfo → Pair
pair_of index k = record {
  from = k.column_name;
  to = k.referenced_column_name;
  ordinal = or_else k.ordinal_position index;
}

abbrev pub group_or_new : SqlForeignKeyInfo → Option Group → Group
group_or_new k (some g) = g
group_or_new k none = record {
  constraint_name = k.constraint_name;
  to_object = target_of k;
  pairs = [];
}

-- The body of the loop over the foreign keys.
unfoldable pub add_key : (index : ℕ) → SqlForeignKeyInfo → Dict Group → Dict Group
add_key index k groups =
    let g = group_or_new k (lookup (group_id k) groups) in
    insert (group_id k) (record g { pairs = g.pairs ++ pair_of index k ∷ [] }) groups

unfoldable pub group_keys : (index : ℕ) → List SqlForeignKeyInfo → Dict Group → Dict Group
unfolding add_key
group_keys index [] groups = groups
group_keys index (k ∷ ks) groups = group_keys (suc index) ks (add_key index k groups)

abbrev pub groups_in : Dict Group → List Group
groups_in [] = []
groups_in ((id, g) ∷ groups) = g ∷ groups_in groups

unfoldable pub relationship_of : Environment → (from_object : String) → Group → CatalogRelationship
unfolding sort
relationship_of e from_object g = record {
  constraint_name = g.constraint_name;
  from_object = from_object;
  to_object = g.to_object;
  column_pairs =
      map (λ (p : Pair). (p.from, p.to))
        (sort
          (compare_ordinal_then e.locale_gt (λ (p : Pair). p.ordinal)
            (λ (p : Pair). nul_joined p.from p.to))
          g.pairs);
}

-- `createRelationships`
unfoldable pub create_relationships :
    Environment → (from_object : String) → List SqlForeignKeyInfo → List CatalogRelationship
unfolding group_keys relationship_of sort
create_relationships e from_object ks =
    sort
      (compare_by e.locale_gt
        (λ (r : CatalogRelationship). nul_joined r.constraint_name r.to_object))
      (map (relationship_of e from_object) (groups_in (group_keys 0 ks [])))
