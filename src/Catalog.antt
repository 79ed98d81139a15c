-- ===== src/Catalog.antt =====
-- schema/schema-catalog.ts: the checks of identities with which createSchemaCatalog begins.
pub mod Source
pub mod Sorting
pub mod Canonical
pub mod Content
pub mod Columns
pub mod Build
pub mod Independent
pub mod Groups
pub mod Identities
mod Tests
use vexnor.Base.{String, List, [], ◌∷◌, ◌++◌, map, if◌then◌else◌}
use vexnor.Base.Dict.{has, add}
use vexnor.Catalog.Source.{SqlTableInfo, SqlEnumInfo, SqlSchema, SqlColumnInfo}
use vexnor.Errors.{Outcome, returned, threw, Thrown, other_error}
use Prim.Native.String.{◌++◌ as str_append}

-- `qualify`
abbrev pub qualify : (schema name : String) → String
qualify schema name = str_append schema (str_append "." name)

-- new Error(`Duplicate ${kind} identity: ${value}`)
abbrev pub duplicate : (kind value : String) → Thrown
duplicate kind value =
    other_error (str_append "Duplicate " (str_append kind (str_append " identity: " value)))

-- The loop of `assertUnique`.
unfoldable pub assert_unseen : (kind : String) → (seen values : List String) → Outcome {0} Unit
assert_unseen kind seen [] = returned tt
assert_unseen kind seen (value ∷ values) =
    let rest = assert_unseen kind (add value seen) values in
    if has value seen then threw (duplicate kind value) else rest

-- `assertUnique`
unfoldable pub assert_unique : (kind : String) → List String → Outcome {0} Unit
unfolding assert_unseen
assert_unique kind values = assert_unseen kind [] values

abbrev pub table_ids : SqlSchema → List String
table_ids schema = map (λ (t : SqlTableInfo). qualify t.table_schema t.table_name) schema.tables

abbrev pub enum_ids : SqlSchema → List String
enum_ids schema = map (λ (e : SqlEnumInfo). qualify e.enum_schema e.enum_name) schema.enums

-- Two statements, the second where the first has returned.
abbrev pub and_after : Outcome {0} Unit → Outcome {0} Unit → Outcome {0} Unit
and_after (returned u) next = next
and_after (threw e) next = threw e

-- `assertUniqueObjectIds`
unfoldable pub assert_unique_object_ids : SqlSchema → Outcome {0} Unit
unfolding assert_unique
assert_unique_object_ids schema =
    and_after (assert_unique "schema object" (table_ids schema))
      (assert_unique "schema enum" (enum_ids schema))

-- `assertUniqueColumnIds`
unfoldable pub assert_unique_column_ids : SqlTableInfo → Outcome {0} Unit
unfolding assert_unique
assert_unique_column_ids t =
    assert_unique (str_append "column in " (qualify t.table_schema t.table_name))
      (map (λ (c : SqlColumnInfo). c.column_name) t.columns)
