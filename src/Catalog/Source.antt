-- ===== src/Catalog/Source.antt =====
-- plugin/vexnor-schema-types.ts and plugin/vexnor-plugin.ts: the schema that a plugin reads from a
-- database, as far as the catalog reads it.
use vexnor.Base.{ℕ, String, Bool, Option, List}

-- The strings "YES" and "NO" are Booleans where the type has only these.
pub record SqlColumnInfo : Type 0 where
  pub column_default : Option String
  pub column_name : String
  pub domain_name : Option String
  pub udt_name : Option String
  pub is_nullable : Bool
  pub is_updatable : Bool
  pub data_type : Option String
  pub generation_expression : Option String
  pub identity_generation : Option String
  pub is_generated : Option String
  pub is_identity : Option String
  pub ordinal_position : Option ℕ

pub record SqlPrimaryKeyInfo : Type 0 where
  pub constraint_name : String
  pub column_name : String
  pub ordinal_position : Option ℕ

pub record SqlForeignKeyInfo : Type 0 where
  pub constraint_name : String
  pub column_name : String
  pub referenced_table_schema : String
  pub referenced_table_name : String
  pub referenced_column_name : String
  pub ordinal_position : Option ℕ

-- `table_type`
pub data TableType : Type 0 where
  table view : TableType

-- Absent foreign keys are no foreign keys.
pub record SqlTableInfo : Type 0 where
  pub table_name : String
  pub table_type : TableType
  pub columns : List SqlColumnInfo
  pub table_schema : String
  pub primary_keys : List SqlPrimaryKeyInfo
  pub foreign_keys : List SqlForeignKeyInfo

pub record SqlEnumValue : Type 0 where
  pub enum_label : String
  pub ordinal_position : Option ℕ

pub record SqlEnumInfo : Type 0 where
  pub enum_name : String
  pub enum_schema : String
  pub enum_values : List SqlEnumValue

pub record SqlSchema : Type 0 where
  pub tables : List SqlTableInfo
  pub enums : List SqlEnumInfo

-- `SqlColumnTypeTree` and `SqlColumnTypeTreeField`
mutual
  pub data TypeTree : Type 0 where
    scalar : (type : String) → (udt : Option String) → TypeTree
    struct : TreeFields → TypeTree
    list : TypeTree → (length : Option ℕ) → TypeTree
    map_of : (key value : TypeTree) → TypeTree
    union : TreeFields → TypeTree

  pub data TreeFields : Type 0 where
    end : TreeFields
    field : (name : String) → TypeTree → TreeFields → TreeFields

pub record SqlColumnType : Type 0 where
  pub type : String
  pub udt : Option String
  pub is_array : Option Bool
  pub ts_type_select : Option String
  pub ts_type_insert : Option String
  pub ts_import : Option String
  pub type_tree : Option TypeTree
