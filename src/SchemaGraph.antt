-- ===== src/SchemaGraph.antt =====
-- execution/schema-graph.ts and execution/schema-graph-types.ts: the tables of a schema, their
-- foreign keys as a graph, and the search for a join path. The proofs are in the modules below.
pub mod Ident
pub mod Steps
pub mod Info
pub mod Edges
pub mod Search
pub mod Shortest
pub mod Symmetry
pub mod Joins
pub mod Plan
pub mod PlanOrder
pub mod PlanReach
mod Tests
use mathlib.Core.Option
use vexnor.Base.{
  ℕ, zero, suc, ◌+◌, ◌*◌, String, Bool, true, false, ◌||◌, ◌&&◌, not, Option, none, some, List, [],
  ◌∷◌, ◌++◌, map, if◌then◌else◌, ◌==◌, length, ltb,
}
use vexnor.Base.Dict.{Dict, lookup, insert, has_key, has, add, keys}
use vexnor.Errors.{or_else, Outcome, returned, threw, other_error}
use vexnor.SchemaGraph.Ident.{includes, dotted, split_id}

-- `SqlTableForeignKey`; an absent schema of the target is the empty text.
pub record TableForeignKey : Type 0 where
  pub from : List String
  pub to_schema : String
  pub to_table : String
  pub to_columns : List String

-- `SqlTableDbColumnSchema`, as far as the graph reads it
pub record DbColumn : Type 0 where
  pub db_type : Option String
  pub nullable : Bool
  pub default : Option String

-- What the graph reads of a `SqlTable`. `object_kind` is there for a table of a catalog.
pub record Table : Type 0 where
  pub name : String
  pub schema : Option String
  pub col_keys : List String
  pub pk : Option (List String)
  pub fk : List TableForeignKey
  pub db_schema : Dict DbColumn
  pub object_kind : Option String

-- A value of the schema object: a table, by `isTable`, or anything else.
pub data Entity : Type 0 where
  table : Table → Entity
  other : Entity

pub data Include : Type 0 where
  stable_identity all_readable : Include

pub record FkEdge : Type 0 where
  pub from : String
  pub to : String
  pub from_cols : List String
  pub to_cols : List String

abbrev pub Graph : Type 0
Graph = Dict (List FkEdge)

-- `this._tables`
abbrev pub Tables : Type 0
Tables = Dict Table

abbrev pub has_columns : Option (List String) → Bool
has_columns none = false
has_columns (some []) = false
has_columns (some (c ∷ cs)) = true

abbrev pub is_partition : String → Bool
unfolding includes
is_partition name = includes "_p20" name || includes "_p0000" name

-- The two filters of the constructor.
unfoldable pub included : Include → Table → Bool
included all_readable t = true
included stable_identity t = has_columns t.pk && not (is_partition t.name)

abbrev pub schema_of : Table → String
schema_of t = or_else t.schema "public"

-- `qualifyTable`
unfoldable pub qualify_table : Table → String
unfolding dotted
qualify_table t = dotted (schema_of t) t.name

-- The loop of the constructor.
unfoldable pub add_tables : Include → List Entity → Tables → Tables
unfolding included qualify_table
add_tables i [] ts = ts
add_tables i (other ∷ es) ts = add_tables i es ts
add_tables i (table t ∷ es) ts =
    add_tables i es (if included i t then insert (qualify_table t) t ts else ts)

unfoldable pub new_graph : Option Include → List Entity → Tables
unfolding add_tables
new_graph i entities = add_tables (or_else i stable_identity) entities []

-- `resolve`
unfoldable pub resolve : String → Tables → Option Table
resolve id ts = lookup id ts

-- graph.get(id) ?? []
abbrev pub edges_of : Graph → String → List FkEdge
edges_of g id = or_else (lookup id g) []

-- `if (!graph.has(id)) graph.set(id, [])`
abbrev pub ensure : String → Graph → Graph
ensure id g = if has_key id g then g else insert id [] g

-- graph.get(id)!.push(edge), for an identifier that is there
abbrev pub push : String → FkEdge → Graph → Graph
push id e g = insert id (edges_of g id ++ e ∷ []) g

abbrev pub reverse : FkEdge → FkEdge
reverse e = record { from = e.to; to = e.from; from_cols = e.to_cols; to_cols = e.from_cols }

-- a || b, for texts
abbrev pub or_text : String → String → String
or_text a b = if a == "" then b else a

-- The edge of one foreign key.
unfoldable pub edge_of : String → Table → TableForeignKey → FkEdge
unfolding dotted
edge_of id t fk = record {
  from = id;
  to = dotted (or_text fk.to_schema (schema_of t)) fk.to_table;
  from_cols = fk.from;
  to_cols = fk.to_columns;
}

-- Both directions of an edge go in, where its target is a table of the graph.
unfoldable pub add_edge : Tables → FkEdge → Graph → Graph
add_edge ts e g =
    if has_key e.to ts then push e.to (reverse e) (ensure e.to (push e.from e g)) else g

-- The loop over the foreign keys of one table.
unfoldable pub add_edges : Tables → String → Table → List TableForeignKey → Graph → Graph
unfolding edge_of add_edge
add_edges ts id t [] g = g
add_edges ts id t (fk ∷ fks) g = add_edges ts id t fks (add_edge ts (edge_of id t fk) g)

-- The loop over the tables.
unfoldable pub add_rows : Tables → Tables → Graph → Graph
unfolding add_edges
add_rows ts [] g = g
add_rows ts ((id, t) ∷ rest) g = add_rows ts rest (add_edges ts id t t.fk (ensure id g))

-- `getFkGraph`
unfoldable pub fk_graph : Tables → Graph
unfolding add_rows
fk_graph ts = add_rows ts ts []

-- The outcome of the loop over the edges of one table: the target was met, or the search goes on.
pub data Scan : Type 0 where
  found : List FkEdge → Scan
  scanned : List String → List (String × List FkEdge) → Scan

unfoldable pub scan :
    (target : String)
    → (path : List FkEdge) → List FkEdge
    → (visited : List String) → (queue : List (String × List FkEdge)) → Scan
scan target path [] visited queue = scanned visited queue
scan target path (e ∷ es) visited queue = elim (has e.to visited) [
  | true ↦ scan target path es visited queue
  | false ↦ elim (e.to == target) [
    | true ↦ found (path ++ e ∷ [])
    | false ↦ scan target path es (add e.to visited) (queue ++ (e.to, path ++ e ∷ []) ∷ [])
  ]
]

abbrev pub targets : Graph → List String
targets [] = []
targets ((id, es) ∷ g) = map (λ (e : FkEdge). e.to) es ++ targets g

abbrev pub proceed :
    (List String → List (String × List FkEdge) → Option (List FkEdge)) → Scan → Option (List FkEdge)
proceed next (found path) = some path
proceed next (scanned visited queue) = next visited queue

-- The `while` loop. Each turn takes one item off the queue.
unfoldable pub search :
    Graph
    → (target : String) → (fuel : ℕ) → (visited : List String)
    → (queue : List (String × List FkEdge)) → Option (List FkEdge)
unfolding scan
search g target zero visited queue = none
search g target (suc fuel) visited [] = none
search g target (suc fuel) visited ((id, path) ∷ queue) =
    proceed (search g target fuel) (scan target path (edges_of g id) visited queue)

-- The search of `joinPath`, with a turn for each edge and one for the start.
unfoldable pub find_path : Graph → (from to : String) → Option (List FkEdge)
unfolding search
find_path g from to = search g to (suc (length (targets g))) (from ∷ []) ((from, []) ∷ [])
