-- ===== src/SchemaGraph/Steps.antt =====
-- execution/schema-graph.ts and execution/schema-graph-types.ts: the join steps of a path, `joinPath`
-- and `shortestPathFromConnected`.
use vexnor.Base.{
  String, not, ◌||◌, Option, none, some, List, [], ◌∷◌, if◌then◌else◌, ◌==◌, length, ltb,
}
use vexnor.Base.Dict.{has_key, has}
use vexnor.Errors.{Outcome, returned, threw, other_error}
use vexnor.SchemaGraph.{FkEdge, Tables, fk_graph, find_path}
use vexnor.SchemaGraph.Ident.{split_id}

pub record JoinStepRef : Type 0 where
  pub schema : String
  pub table : String
  pub column : Option String

pub record JoinStep : Type 0 where
  pub from : JoinStepRef
  pub to : JoinStepRef
  pub column_pairs : Option (List (JoinStepRef × JoinStepRef))

abbrev pub ref_of : String × String → Option String → JoinStepRef
ref_of id column = record { schema = id.0; table = id.1; column = column }

-- `fromCols.map(…)` with `toCols[index]`, which is undefined past the end.
unfoldable pub column_pairs :
    (from to : String × String) → List String → List String → List (JoinStepRef × JoinStepRef)
column_pairs from to [] cols = []
column_pairs from to (c ∷ cs) [] =
    (ref_of from (some c), ref_of to none) ∷ column_pairs from to cs []
column_pairs from to (c ∷ cs) (d ∷ ds) =
    (ref_of from (some c), ref_of to (some d)) ∷ column_pairs from to cs ds

abbrev pub step_of_pairs : List (JoinStepRef × JoinStepRef) → Option JoinStep
step_of_pairs [] = none
step_of_pairs (p ∷ []) = some (record { from = p.0; to = p.1; column_pairs = none })
step_of_pairs (p ∷ q ∷ ps) =
    some (record { from = p.0; to = p.1; column_pairs = some (p ∷ q ∷ ps) })

-- A step of the result. Without a column pair, `columnPairs[0]!.from` throws: `none`.
unfoldable pub step_of : FkEdge → Option JoinStep
unfolding column_pairs split_id
step_of e = step_of_pairs (column_pairs (split_id e.from) (split_id e.to) e.from_cols e.to_cols)

abbrev pub cons_step : Option JoinStep → Option (List JoinStep) → Option (List JoinStep)
cons_step (some x) (some xs) = some (x ∷ xs)
cons_step x xs = none

unfoldable pub steps_of : List FkEdge → Option (List JoinStep)
unfolding step_of
steps_of [] = some []
steps_of (e ∷ es) = cons_step (step_of e) (steps_of es)

-- A found path as the result of the call, which throws where `steps_of` does.
abbrev pub path_result : Option (List FkEdge) → Outcome (Option (List JoinStep))
unfolding steps_of
path_result none = returned none
path_result (some path) = elim (steps_of path) [
  | none ↦ threw (other_error "TypeError")
  | some steps ↦ returned (some steps)
]

-- `joinPath`
unfoldable pub join_path : Tables → (from to : String) → Outcome (Option (List JoinStep))
unfolding fk_graph find_path
join_path ts from to =
    if from == to
    then returned (some [])
    else if not (has_key from (fk_graph ts)) || not (has_key to (fk_graph ts))
    then returned none
    else path_result (find_path (fk_graph ts) from to)

-- The shorter of the best path so far and a candidate.
abbrev pub better : Option (List JoinStep) → List JoinStep → Option (List JoinStep)
better none candidate = some candidate
better (some best) candidate =
    if ltb (length candidate) (length best) then some candidate else some best

abbrev pub consider :
    Outcome (Option (List JoinStep)) → Option (List JoinStep) → Outcome (Option (List JoinStep))
consider (threw e) best = threw e
consider (returned none) best = returned best
consider (returned (some candidate)) best = returned (better best candidate)

abbrev pub and_then {ℓ} : {A B : Type ℓ} → (A → Outcome B) → Outcome A → Outcome B
and_then f (returned a) = f a
and_then f (threw e) = threw e

-- The loop of `shortestPathFromConnected`.
unfoldable pub best_from :
    Tables → List String → String → Option (List JoinStep) → Outcome (Option (List JoinStep))
unfolding join_path
best_from ts [] target best = returned best
best_from ts (id ∷ ids) target best =
    and_then (best_from ts ids target) (consider (join_path ts id target) best)

unfoldable pub shortest_path_from_connected :
    Tables → List String → String → Outcome (Option (List JoinStep))
unfolding best_from
shortest_path_from_connected ts ids target =
    if has target ids then returned (some []) else best_from ts ids target none
