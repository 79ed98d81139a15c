-- ===== src/SchemaGraph/Tests.antt =====
-- A schema of three tables on which the theorems are applied.
use mathlib.Core.Option
use vexnor.Base.{◌≤◌, ◌≡◌, refl, inl, inr, String, none, some, List, [], ◌∷◌, length}
use vexnor.Base.Dict.{lookup, insert, has, add}
use vexnor.Errors.{returned}
use vexnor.SchemaGraph.{
  FkEdge, Table, Tables, TableForeignKey, table, other, new_graph, add_tables, included,
  is_partition, qualify_table, fk_graph, add_rows, add_edges, add_edge, edge_of, find_path, search,
  scan,
}
use vexnor.SchemaGraph.Ident.{dotted, split_id, split_id-dotted, includes, at_dot}
use vexnor.SchemaGraph.Steps.{
  JoinStep, JoinStepRef, step_of, steps_of, column_pairs, join_path, best_from,
  shortest_path_from_connected,
}
use vexnor.SchemaGraph.Edges.{Chain}
use vexnor.SchemaGraph.Shortest.{find_path-shortest, find_path_complete}
use vexnor.SchemaGraph.Symmetry.{IsSymmetric, fk_graph-IsSymmetric, find_path-symmetric}
use vexnor.SchemaGraph.Plan.{Target, Progress}
use vexnor.SchemaGraph.Info.{
  table_info, format_table, format_info, table_of, foreign_key, join_texts,
}

abbrev key_to : String → String → TableForeignKey
key_to column target = record {
  from = column ∷ [];
  to_schema = "";
  to_table = target;
  to_columns = "id" ∷ [];
}

abbrev row : String → List TableForeignKey → Table
row name fk = record {
  name = name;
  schema = none;
  col_keys = "id" ∷ [];
  pk = some ("id" ∷ []);
  fk = fk;
  db_schema = [];
  object_kind = none;
}

-- The tables a, b and c, with a key from a to b and one from b to c.
abbrev shop : Tables
shop =
    ("public.a", row "a" (key_to "b_id" "b" ∷ []))
    ∷ ("public.b", row "b" (key_to "c_id" "c" ∷ []))
    ∷ ("public.c", row "c" [])
    ∷ []

abbrev a_to_b : FkEdge
a_to_b = record { from = "public.a"; to = "public.b"; from_cols = "b_id" ∷ []; to_cols = "id" ∷ [] }

abbrev b_to_c : FkEdge
b_to_c = record { from = "public.b"; to = "public.c"; from_cols = "c_id" ∷ []; to_cols = "id" ∷ [] }

abbrev a_to_c : List FkEdge
a_to_c = a_to_b ∷ b_to_c ∷ []

new_graph_test :
    new_graph none
      (table (row "a" (key_to "b_id" "b" ∷ [])) ∷ other ∷ table (row "a_p2024" []) ∷ [])
    ≡ ("public.a", row "a" (key_to "b_id" "b" ∷ [])) ∷ []
unfolding new_graph add_tables included is_partition includes qualify_table dotted insert
new_graph_test = refl

shop-found : find_path (fk_graph shop) "public.a" "public.c" ≡ some a_to_c
unfolding find_path search scan fk_graph add_rows add_edges add_edge edge_of dotted insert lookup
    has add
shop-found = refl

shop-Chain : Chain (fk_graph shop) "public.a" a_to_c "public.c"
unfolding fk_graph add_rows add_edges add_edge edge_of dotted insert lookup
shop-Chain = (inl refl, (inr (inl refl), refl))

find_path-shortest_example :
    Chain (fk_graph shop) "public.a" a_to_c "public.c"
    × ((q : List FkEdge) → Chain (fk_graph shop) "public.a" q "public.c" → length a_to_c ≤ length q)
find_path-shortest_example =
    find_path-shortest (fk_graph shop) "public.a" "public.c" a_to_c refl shop-found

find_path_complete_example :
    (path : List FkEdge) × (find_path (fk_graph shop) "public.a" "public.c" ≡ some path)
find_path_complete_example =
    find_path_complete (fk_graph shop) "public.a" "public.c" a_to_c refl shop-Chain

fk_graph-IsSymmetric_example : IsSymmetric (fk_graph shop)
fk_graph-IsSymmetric_example = fk_graph-IsSymmetric shop

find_path-symmetric_example :
    Option.map length (find_path (fk_graph shop) "public.a" "public.c")
    ≡ Option.map length (find_path (fk_graph shop) "public.c" "public.a")
find_path-symmetric_example = find_path-symmetric shop "public.a" "public.c" refl refl

abbrev column_of : String → String → JoinStepRef
column_of name column = record { schema = "public"; table = name; column = some column }

abbrev steps : List JoinStep
steps =
    record { from = column_of "a" "b_id"; to = column_of "b" "id"; column_pairs = none }
    ∷ record { from = column_of "b" "c_id"; to = column_of "c" "id"; column_pairs = none }
    ∷ []

shop-joined : join_path shop "public.a" "public.c" ≡ returned (some steps)
unfolding join_path steps_of step_of column_pairs split_id at_dot find_path search scan fk_graph
    add_rows add_edges add_edge edge_of dotted insert lookup has add
shop-joined = refl

abbrev last_step : List JoinStep
last_step =
    record { from = column_of "b" "c_id"; to = column_of "c" "id"; column_pairs = none } ∷ []

abbrev connected : List String
connected = "public.a" ∷ "public.b" ∷ []

shop-connected : shortest_path_from_connected shop connected "public.c" ≡ returned (some last_step)
unfolding shortest_path_from_connected best_from join_path steps_of step_of column_pairs split_id
    at_dot find_path search scan fk_graph add_rows add_edges add_edge edge_of dotted insert lookup
    has add
shop-connected = refl

split_id-dotted_example : split_id (dotted "public" "order.line") ≡ ("public", "order.line")
split_id-dotted_example = split_id-dotted "public" "order.line" (unfold at_dot in refl)

abbrev to_c : List Target
to_c = record { table = row "c" []; join_type = none } ∷ []

abbrev root_a : Table
root_a = row "a" (key_to "b_id" "b" ∷ [])

abbrev taken : Progress
taken = record {
  path = steps;
  seen_steps = "public.a.b_id->public.b.id" ∷ "public.b.c_id->public.c.id" ∷ [];
  connected = "public.a" ∷ "public.b" ∷ "public.c" ∷ [];
}

format_table_test :
    format_table shop "public.a"
    ≡ "Table: public.a\n  columns: id(unknown)\n  pk: id\n  fk: b_id → public.b.id"
unfolding format_table format_info table_of table_info foreign_key join_texts dotted lookup
format_table_test = refl
