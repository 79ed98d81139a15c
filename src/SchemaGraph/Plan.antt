-- ===== src/SchemaGraph/Plan.antt =====
-- execution/schema-graph.ts: `join` and `joinBy`, less the query that the result carries, which a
-- plugin or the root table makes.
use vexnor.Base.{String, Option, none, some, List, [], ◌∷◌, ◌++◌, map, if◌then◌else◌, ◌==◌}
use vexnor.Base.Dict.{Dict, lookup, insert, has, add}
use vexnor.Errors.{Outcome, returned, or_else}
use Prim.Native.String.{◌++◌ as str_append}
use vexnor.SchemaGraph.{Table, Tables, qualify_table}
use vexnor.SchemaGraph.Ident.{dotted, split_id}
use vexnor.SchemaGraph.Steps.{JoinStepRef, JoinStep, shortest_path_from_connected, and_then}

pub data JoinType : Type 0 where
  inner left right full cross : JoinType

-- A target of `join`.
pub record Target : Type 0 where
  pub table : Table
  pub join_type : Option JoinType

-- An entry of `joinBy` in the result.
pub record JoinOn : Type 0 where
  pub on : List (String × String × String)
  pub join_type : Option JoinType

-- `JoinResult` without its query; `join_map` is what the query is made of.
pub record JoinResult : Type 0 where
  pub join_map : Dict Table
  pub join_by : Dict JoinOn
  pub tables : List String
  pub columns : List String

-- The state of the loop over the targets.
pub record Progress : Type 0 where
  pub path : List JoinStep
  pub seen_steps : List String
  pub connected : List String

-- `step.columnPairs ?? [{ from: step.from, to: step.to }]`
abbrev pub pairs_of : JoinStep → List (JoinStepRef × JoinStepRef)
pairs_of step = or_else step.column_pairs ((step.from, step.to) ∷ [])

-- An undefined column reads as the text "undefined".
abbrev pub column_text : JoinStepRef → String
column_text r = or_else r.column "undefined"

unfoldable pub ref_text : JoinStepRef → String
unfolding dotted
ref_text r = dotted r.schema (dotted r.table (column_text r))

abbrev pub pair_text : JoinStepRef × JoinStepRef → String
unfolding ref_text
pair_text p = str_append (ref_text p.0) (str_append "->" (ref_text p.1))

unfoldable pub joined_by_bar : List String → String
joined_by_bar [] = ""
joined_by_bar (s ∷ []) = s
joined_by_bar (s ∷ t ∷ ts) = str_append s (str_append "|" (joined_by_bar (t ∷ ts)))

-- `stepKey`
unfoldable pub step_key : JoinStep → String
unfolding pair_text joined_by_bar
step_key step = joined_by_bar (map pair_text (pairs_of step))

abbrev pub id_of : JoinStepRef → String
unfolding dotted
id_of r = dotted r.schema r.table

-- The loop over the steps of one target.
unfoldable pub take_steps : List JoinStep → Progress → Progress
unfolding step_key id_of
take_steps [] p = p
take_steps (step ∷ steps) p = take_steps steps (
    if has (step_key step) p.seen_steps then p else record {
      path = p.path ++ step ∷ [];
      seen_steps = add (step_key step) p.seen_steps;
      connected = add (id_of step.to) (add (id_of step.from) p.connected);
    })

abbrev pub reach_target : String → Progress → Option (List JoinStep) → Option Progress
unfolding take_steps
reach_target target p none = none
reach_target target p (some steps) =
    let q = take_steps steps p in some (record q { connected = add target q.connected })

abbrev pub next_target :
    (Progress → Outcome (Option Progress)) → Option Progress → Outcome (Option Progress)
next_target next none = returned none
next_target next (some p) = next p

-- The loop over the targets.
unfoldable pub reach_targets : Tables → List Target → Progress → Outcome (Option Progress)
unfolding reach_target shortest_path_from_connected qualify_table
reach_targets ts [] p = returned (some p)
reach_targets ts (t ∷ targets) p =
    and_then
      (λ steps.
        next_target (reach_targets ts targets) (reach_target (qualify_table t.table) p steps))
      (shortest_path_from_connected ts p.connected (qualify_table t.table))

unfoldable pub join_map_of : List Target → Dict Table → Dict Table
join_map_of [] m = m
join_map_of (t ∷ targets) m = join_map_of targets (insert t.table.name t.table m)

-- `targetDef?.type && targetDef.type !== "inner" ? targetDef.type : undefined`
abbrev pub written_type : Option JoinType → Option JoinType
written_type none = none
written_type (some inner) = none
written_type (some left) = some left
written_type (some right) = some right
written_type (some full) = some full
written_type (some cross) = some cross

-- targets.find(…)?.type
unfoldable pub type_for : String → List Target → Option JoinType
unfolding qualify_table
type_for id [] = none
type_for id (t ∷ targets) = if qualify_table t.table == id then t.join_type else type_for id targets

abbrev pub condition_of : JoinStepRef × JoinStepRef → String × String × String
unfolding dotted
condition_of p = (dotted p.0.table (column_text p.0), "=", dotted p.1.table (column_text p.1))

unfoldable pub join_by_of : List Target → List JoinStep → Dict JoinOn → Dict JoinOn
unfolding condition_of type_for id_of
join_by_of targets [] m = m
join_by_of targets (step ∷ steps) m = join_by_of targets steps (
    insert step.to.table
      (record {
        on = map condition_of (pairs_of step);
        join_type = written_type (type_for (id_of step.to) targets);
      })
      m)

-- `filter((id, index, values) => values.indexOf(id) === index)`, from the identifiers before on
unfoldable pub first_of_each : (before : List String) → List String → List String
first_of_each before [] = []
first_of_each before (id ∷ ids) =
    let rest = first_of_each (before ++ id ∷ []) ids in if has id before then rest else id ∷ rest

-- The columns of one table.
abbrev pub columns_in : (root_name id : String) → Option Table → List String
unfolding split_id dotted
columns_in root_name id none = []
columns_in root_name id (some t) =
    let name = (split_id id).1 in
    map (λ col. if name == root_name then col else dotted name col) t.col_keys

unfoldable pub columns_of : Tables → (root_name : String) → List String → List String
unfolding columns_in
columns_of ts root_name [] = []
columns_of ts root_name (id ∷ ids) =
    columns_in root_name id (lookup id ts) ++ columns_of ts root_name ids

unfoldable pub result_of : Tables → Table → List Target → Progress → JoinResult
unfolding join_map_of join_by_of first_of_each columns_of id_of qualify_table
result_of ts root targets p =
    let ids = first_of_each [] (qualify_table root ∷ map (λ (s : JoinStep). id_of s.to) p.path) in
    record {
      join_map = join_map_of targets [];
      join_by = join_by_of targets p.path [];
      tables = ids;
      columns = columns_of ts root.name ids;
    }

abbrev pub finish_join :
    Tables → Table → List Target → Option Progress → Outcome (Option JoinResult)
unfolding result_of
finish_join ts root targets none = returned none
finish_join ts root targets (some p) = returned (some (result_of ts root targets p))

-- `join`
unfoldable pub join : Tables → Table → List Target → Outcome (Option JoinResult)
unfolding reach_targets finish_join qualify_table
join ts root targets = and_then (finish_join ts root targets) (
    reach_targets ts targets
      (record { path = []; seen_steps = []; connected = qualify_table root ∷ [] }))

-- The targets of `joinBy`, resolved, if each of them is in the graph.
abbrev pub cons_target :
    Option Table → Option JoinType → Option (List Target) → Option (List Target)
cons_target (some t) ty (some targets) = some (record { table = t; join_type = ty } ∷ targets)
cons_target t ty targets = none

unfoldable pub resolve_targets : Tables → List (String × Option JoinType) → Option (List Target)
resolve_targets ts [] = some []
resolve_targets ts ((id, ty) ∷ rest) = cons_target (lookup id ts) ty (resolve_targets ts rest)

abbrev pub join_resolved :
    Tables → Option Table → Option (List Target) → Outcome (Option JoinResult)
unfolding join
join_resolved ts (some root) (some (t ∷ targets)) = join ts root (t ∷ targets)
join_resolved ts root targets = returned none

-- `joinBy`
unfoldable pub join_by :
    Tables → String → List (String × Option JoinType) → Outcome (Option JoinResult)
unfolding resolve_targets join_resolved
join_by ts from targets = join_resolved ts (lookup from ts) (resolve_targets ts targets)
