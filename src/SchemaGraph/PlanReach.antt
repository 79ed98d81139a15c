-- ===== src/SchemaGraph/PlanReach.antt =====
-- What `join` connects: its steps are foreign keys of the graph, and all its targets are reached.
use vexnor.Base.{In, ◌≡◌, String, true, some, List, [], ◌∷◌, All}
use vexnor.Base.Dict.{has}
use vexnor.Errors.{returned}
use vexnor.SchemaGraph.{FkEdge, Table, Tables, edges_of, fk_graph, qualify_table}
use vexnor.SchemaGraph.Steps.{JoinStep, step_of}
use vexnor.SchemaGraph.Plan.{Target, JoinResult, Progress, reach_targets, result_of}

-- The step of an edge of the graph.
abbrev pub IsForeignKey : Tables → JoinStep → Type 0
IsForeignKey ts step =
    (id : String) × (e : FkEdge) × In e (edges_of (fk_graph ts) id) × (step_of e ≡ some step)

-- What the loop over the targets reaches, from a progress on.
abbrev Reaches : Tables → List Target → Progress → Progress → Type 0
Reaches ts targets p q =
    (All (IsForeignKey ts) p.path → All (IsForeignKey ts) q.path)
    × ((id : String) → has id p.connected ≡ true → has id q.connected ≡ true)
    × All (λ (t : Target). has (qualify_table t.table) q.connected ≡ true) targets

-- The progress of `join` before the first target.
abbrev pub from_root : Table → Progress
unfolding qualify_table
from_root root = record { path = []; seen_steps = []; connected = qualify_table root ∷ [] }

-- What a join promises of the progress that its result is made of.
abbrev pub Connects : Tables → Table → List Target → JoinResult → Progress → Type 0
Connects ts root targets r p =
    (reach_targets ts targets (from_root root) ≡ returned (some p))
    × (result_of ts root targets p ≡ r)
    × All (IsForeignKey ts) p.path
    × (has (qualify_table root) p.connected ≡ true)
    × All (λ (t : Target). has (qualify_table t.table) p.connected ≡ true) targets
