-- ===== src/SchemaGraph/Info.antt =====
-- execution/schema-graph.ts: `table` and the texts for prompts.
use Prim.Native.String.{◌++◌ as str_append}
use vexnor.Base.{
  String, Bool, true, false, Option, none, some, List, [], ◌∷◌, ◌++◌, map, if◌then◌else◌, ◌==◌,
  length, ltb, ◌≡◌, refl, ap,
}
use vexnor.Base.Dict.{lookup, keys}
use vexnor.Errors.{or_else}
use vexnor.SchemaGraph.{
  Table, Tables, TableForeignKey, FkEdge, DbColumn, schema_of, or_text, edge_of,
}
use vexnor.SchemaGraph.Ident.{dotted}

-- `ColumnInfo`; an absent `nullable` is false.
pub record ColumnInfo : Type 0 where
  pub name : String
  pub column_type : String
  pub nullable : Bool
  pub default : Option String

-- `ForeignKey`; the columns of a key without any are undefined.
pub record ForeignKey : Type 0 where
  pub column : Option String
  pub target_table : String
  pub target_column : Option String
  pub columns : Option (List String × List String)

pub record TableInfo : Type 0 where
  pub name : String
  pub schema : String
  pub columns : List ColumnInfo
  pub pk : List String
  pub fk : List ForeignKey
  pub kind : Option String

abbrev pub head : List String → Option String
head [] = none
head (x ∷ xs) = some x

-- A text that is there and not empty.
abbrev pub non_empty : Option String → Option String
non_empty none = none
non_empty (some s) = if s == "" then none else some s

abbrev pub column_info : String → Option DbColumn → ColumnInfo
column_info key none = record {
  name = key;
  column_type = "unknown";
  nullable = false;
  default = none;
}
column_info key (some db) = record {
  name = key;
  column_type = or_else db.db_type "unknown";
  nullable = db.nullable;
  default = non_empty db.default;
}

unfoldable pub foreign_key : Table → TableForeignKey → ForeignKey
unfolding dotted
foreign_key t f = record {
  column = head f.from;
  target_table = dotted (or_text f.to_schema (schema_of t)) f.to_table;
  target_column = head f.to_columns;
  columns = if ltb 1 (length f.from) then some (f.from, f.to_columns) else none;
}

unfoldable pub table_info : Table → TableInfo
unfolding foreign_key
table_info t = record {
  name = t.name;
  schema = schema_of t;
  columns = map (λ key. column_info key (lookup key t.db_schema)) t.col_keys;
  pk = or_else t.pk [];
  fk = map (foreign_key t) t.fk;
  kind = t.object_kind;
}

-- `table`
unfoldable pub table_of : Tables → String → Option TableInfo
unfolding table_info edge_of
table_of ts id = elim (lookup id ts) [ none ↦ none | some t ↦ some (table_info t) ]

-- xs.join(separator)
unfoldable pub join_texts : String → List String → String
join_texts separator [] = ""
join_texts separator (x ∷ []) = x
join_texts separator (x ∷ y ∷ ys) =
    str_append x (str_append separator (join_texts separator (y ∷ ys)))

abbrev pub concat_texts : List String → String
concat_texts [] = ""
concat_texts (x ∷ xs) = str_append x (concat_texts xs)

-- An undefined value reads as the text "undefined".
abbrev pub shown : Option String → String
shown o = or_else o "undefined"

abbrev pub has_keys : List ForeignKey → Bool
has_keys [] = false
has_keys (f ∷ fs) = true

unfoldable pub format_info : TableInfo → String
unfolding join_texts
format_info i =
    let cols = join_texts ", " (
      map (λ (c : ColumnInfo). concat_texts (c.name ∷ "(" ∷ c.column_type ∷ ")" ∷ [])) i.columns) in
    let fk =
      if has_keys i.fk
      then join_texts ", " (
          map
            (λ (f : ForeignKey).
              concat_texts
                (shown f.column ∷ " → " ∷ f.target_table ∷ "." ∷ shown f.target_column ∷ []))
            i.fk)
      else "none" in
    concat_texts (
      "Table: "
      ∷ i.schema
      ∷ "."
      ∷ i.name
      ∷ "\n  columns: "
      ∷ cols
      ∷ "\n  pk: "
      ∷ join_texts ", " i.pk
      ∷ "\n  fk: "
      ∷ fk
      ∷ [])

-- `formatTable`
unfoldable pub format_table : Tables → String → String
unfolding table_of format_info
format_table ts id = elim (table_of ts id) [ none ↦ "" | some i ↦ format_info i ]

-- The line of `formatRelationships` for one table, if it has foreign keys.
abbrev pub relationship_line : Option TableInfo → List String
unfolding join_texts
relationship_line none = []
relationship_line (some i) =
    if has_keys i.fk
    then concat_texts (
        i.schema
        ∷ "."
        ∷ i.name
        ∷ " → "
        ∷ join_texts ", " (
            map
              (λ (f : ForeignKey). concat_texts (f.target_table ∷ "(" ∷ shown f.column ∷ ")" ∷ []))
              i.fk)
        ∷ [])
      ∷ []
    else []

unfoldable pub relationship_lines : Tables → List String → List String
unfolding table_of relationship_line
relationship_lines ts [] = []
relationship_lines ts (id ∷ ids) = relationship_line (table_of ts id) ++ relationship_lines ts ids

-- The line of `formatOverview` for one table.
abbrev pub overview_line : String → Option TableInfo → String
unfolding join_texts
overview_line id none = id
overview_line id (some i) = concat_texts (
    i.schema
    ∷ "."
    ∷ i.name
    ∷ "("
    ∷ join_texts ", " (map (λ (c : ColumnInfo). c.name) i.columns)
    ∷ ") pk:"
    ∷ join_texts ", " i.pk
    ∷ (if has_keys i.fk
        then str_append " fk:" (
            join_texts ", " (
              map (λ (f : ForeignKey). concat_texts (shown f.column ∷ "→" ∷ f.target_table ∷ []))
                i.fk))
        else "")
    ∷ [])

-- The two texts over all tables, and `tables`. The order of `sort` is a parameter.
module _ (sort : List String → List String) where
  unfoldable pub tables : Tables → List String
  tables ts = sort (keys ts)

  unfoldable pub format_relationships : Tables → String
  unfolding tables relationship_lines join_texts
  format_relationships ts = join_texts "\n" (relationship_lines ts (tables ts))

  unfoldable pub format_overview : Tables → String
  unfolding tables table_of overview_line join_texts
  format_overview ts = join_texts "\n" (map (λ id. overview_line id (table_of ts id)) (tables ts))

-- The target that `table` names for a foreign key of a table is the one that its edge enters in the
-- graph of the join paths.
pub target_table-edge_of :
    (id : String) (t : Table)
    → map (λ (f : ForeignKey). f.target_table) (table_info t).fk
      ≡ map (λ (e : FkEdge). e.to) (map (edge_of id t) t.fk)
unfolding table_info edge_of
target_table-edge_of id t = go t.fk
  where
    go :
        (fks : List TableForeignKey)
        → map (λ (f : ForeignKey). f.target_table) (map (foreign_key t) fks)
          ≡ map (λ (e : FkEdge). e.to) (map (edge_of id t) fks)
    go [] = refl
    go (fk ∷ fks) = ap (λ xs. (edge_of id t fk).to ∷ xs) (go fks)
