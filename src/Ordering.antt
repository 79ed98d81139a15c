-- ===== src/Ordering.antt =====
-- core/operators/sql-order-by.ts and core/operators/sql-pagination.ts: the clauses behind WHERE, as
-- texts and bound values. The proofs are in the modules below.
pub mod Quote
pub mod Clauses
mod Tests
use mathlib.Core.Option
use vexnor.Base.{
  ℕ, zero, suc, String, Bool, true, false, Option, none, some, List, [], ◌∷◌, ◌++◌, if◌then◌else◌,
  ◌==◌, ltb, length,
}
use vexnor.Base.Dict.{Dict, lookup, has, add}
use vexnor.Errors.{or_else}
use vexnor.FilterBy.{Columns, Token, text, value}
use vexnor.Ordering.Quote.{quoted}

-- `sqlProjectByAggregations`
abbrev pub aggregations : List String
aggregations = "sum" ∷ "count" ∷ "avg" ∷ "min" ∷ "max" ∷ []

-- An entry of the select parameter: its function, if it is an object with one.
abbrev pub SelectEntry : Type 0
SelectEntry = String × Option String

abbrev pub is_aggregate : Option String → Bool
is_aggregate none = false
is_aggregate (some fn) = has fn aggregations

-- The set of aliases that name an aggregate.
unfoldable pub aggregate_aliases : List SelectEntry → List String → List String
aggregate_aliases [] aliases = aliases
aggregate_aliases ((alias, fn) ∷ select) aliases =
    aggregate_aliases select (if is_aggregate fn then add alias aliases else aliases)

-- `VALID_DIRECTIONS`, each with the text that its upper case makes
abbrev pub directions : Dict String
directions = ("asc", " ASC") ∷ ("desc", " DESC") ∷ ("ASC", " ASC") ∷ ("DESC", " DESC") ∷ []

-- The text of a direction; an empty one is ascending, and `none` stands for the error.
unfoldable pub direction_text : String → Option String
direction_text dir = if dir == "" then some " ASC" else lookup dir directions

-- The column of a field, or the field as a quoted name.
unfoldable pub order_column : Columns → List String → String → List String
unfolding quoted
order_column c aliases field =
    if has field aliases
    then quoted field ∷ []
    else if ltb 0 (length c.joined)
    then or_else (lookup (c.lower field) c.joined) (quoted field ∷ [])
    else or_else (lookup field c.cols) (quoted field ∷ [])

abbrev pub comma : ℕ → List String
comma zero = []
comma (suc n) = ", " ∷ []

abbrev pub write_order :
    (before : List String) → Option String → Option (List String) → Option (List String)
write_order before none rest = none
write_order before (some dir) rest = Option.map (λ ts. before ++ (dir ∷ ts)) rest

-- The loop over the entries, with its `emitted`.
unfoldable pub order_entries :
    Columns → List String → ℕ → List (String × String) → Option (List String)
unfolding direction_text order_column
order_entries c aliases n [] = some []
order_entries c aliases n ((field, dir) ∷ es) =
    write_order (comma n ++ order_column c aliases field) (direction_text dir)
      (order_entries c aliases (suc n) es)

-- `write` of the order, where the build has parameters; no entries stand for an absent parameter too.
unfoldable pub order_by : Columns → List SelectEntry → List (String × String) → Option (List String)
unfolding order_entries aggregate_aliases
order_by c select [] = some []
order_by c select (e ∷ es) =
    Option.map (λ ts. "order by " ∷ ts) (order_entries c (aggregate_aliases select []) 0 (e ∷ es))

-- `write` of the pagination, where the build has parameters
unfoldable pub pagination : {V : Type 0} → (limit offset : Option V) → List (Token V)
pagination none none = []
pagination (some l) none = text "limit " ∷ value (some l) ∷ []
pagination none (some o) = text "offset " ∷ value (some o) ∷ []
pagination (some l) (some o) =
    text "limit " ∷ value (some l) ∷ text " " ∷ text "offset " ∷ value (some o) ∷ []
