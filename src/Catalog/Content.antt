-- ===== src/Catalog/Content.antt =====
-- schema/schema-catalog.ts: what a catalog holds.
use vexnor.Base.{ℕ, String, Bool, Option, List}
use vexnor.Catalog.Source.{TableType}

-- `code` is the kind of a `SchemaCatalogWarning`.
pub data WarningCode : Type 0 where
  unknown_column_type missing_plugin_version : WarningCode

pub record CatalogWarning : Type 0 where
  pub code : WarningCode
  pub message : String

pub record CustomType : Type 0 where
  pub udt : Option String
  pub select : Option String
  pub insert : Option String
  pub import : Option String

mutual
  pub data CatalogTree : Type 0 where
    scalar : (type : String) → (udt : Option String) → CatalogTree
    struct : CatalogTreeFields → CatalogTree
    list : CatalogTree → (length : Option ℕ) → CatalogTree
    map_of : (key value : CatalogTree) → CatalogTree
    union : CatalogTreeFields → CatalogTree

  pub data CatalogTreeFields : Type 0 where
    end : CatalogTreeFields
    field :
        (physical_name mapping_name : String) → CatalogTree → CatalogTreeFields → CatalogTreeFields

pub record CatalogColumn : Type 0 where
  pub id : String
  pub physical_name : String
  pub mapping_name : String
  pub native_type : String
  pub data_type : Option String
  pub normalized_type : String
  pub ordinal_position : ℕ
  pub nullable : Bool
  pub default : Option String
  pub generated : Bool
  pub generation_expression : Option String
  pub identity : Bool
  pub identity_generation : Option String
  pub updatable : Bool
  pub domain_name : Option String
  pub array : Bool
  pub type_tree : Option CatalogTree
  pub custom_type : Option CustomType
  pub warnings : List CatalogWarning

pub record CatalogPrimaryKey : Type 0 where
  pub constraint_name : String
  pub columns : List String

pub record CatalogRelationship : Type 0 where
  pub constraint_name : String
  pub from_object : String
  pub to_object : String
  pub column_pairs : List (String × String)

-- `SchemaCatalogObjectCapabilities`; `readable` is always true.
pub record Capabilities : Type 0 where
  pub insertable : Bool
  pub updatable : Bool
  pub deletable : Bool
  pub stable_identity : Bool
  pub automatic_join : Bool

pub record CatalogObject : Type 0 where
  pub id : String
  pub schema : String
  pub name : String
  pub kind : TableType
  pub mapping_name : String
  pub columns : List CatalogColumn
  pub primary_key : Option CatalogPrimaryKey
  pub relationships : List CatalogRelationship
  pub capabilities : Capabilities
  pub warnings : List CatalogWarning

pub record CatalogEnum : Type 0 where
  pub id : String
  pub schema : String
  pub name : String
  pub values : List String

pub record CatalogPlugin : Type 0 where
  pub name : String
  pub version : String
  pub driver : String
  pub dialect : String

-- The catalog without its fingerprint.
pub record Contents : Type 0 where
  pub plugin : CatalogPlugin
  pub schemas : List String
  pub enums : List CatalogEnum
  pub objects : List CatalogObject
  pub warnings : List CatalogWarning

pub record Catalog : Type 0 where
  pub fingerprint : String
  pub contents : Contents
