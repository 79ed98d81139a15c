-- ===== src/QueryBuild/Tests.antt =====
-- Runs of core/query/sql-query.ts on small queries.
use vexnor.Base.{ℕ, ◌≡◌, refl, none, some, Bool, false, String, List, [], ◌∷◌, if◌then◌else◌, ◌==◌}
use vexnor.Base.Int.{pos}
use vexnor.Base.Dict.{insert}
use vexnor.Errors.{Action, returned, ◌>>=◌, ◌>>◌}
use vexnor.BuildContext.Queries.{Query, query, no_more, and_also, add_query, is_cte}
use vexnor.BuildContext.Keywords.{next}
use vexnor.BuildContext.Scope.{Context, text, value, operator, main, add_values, add_operator}
use vexnor.QueryBuild.{
  Tree, tree, no_child, child, children, no_sql, sql, value as value_child, token, inner_query,
  build_query,
}
use vexnor.QueryBuild.Scopes.{After, Restored}
use vexnor.QueryBuild.Restores.{build_query-Restored}

abbrev inner : Query
inner = query "q2" none no_more

abbrev outer : Query
outer = query "q1" (some "report") (and_also inner no_more)

abbrev words : String → List String
words s = if s == "select * from " then "select" ∷ "*" ∷ "from" ∷ [] else s ∷ []

abbrev never_blank : String → Bool
never_blank s = false

-- A token of another kind: it appends an operator token.
abbrev build_other : String → Action (Context ℕ ℕ) (Unit {0})
build_other name s = (returned tt, add_operator name s)

-- select * from ${select ${7}} where ${op}
abbrev nested : Tree ℕ String
nested = tree outer "report" ("select * from " ∷ " where " ∷ "" ∷ []) (
    child
      (inner_query none none
        (tree inner "-" ("select " ∷ "" ∷ []) (child (value_child 7) no_child)))
      (children (sql (token "a") (sql (token "b") no_sql)) no_child))

abbrev empty_context : Context ℕ ℕ
empty_context = record {
  queries = [];
  columns = [];
  tokens = [];
  keywords = record { stacks = [] ∷ []; context_depths = pos 0 ∷ []; depth = pos 0 };
  expr_depth = 2;
  next_text = none;
  prev_text = none;
  query_stack = [];
  aliases = record { stack = (("$queryId", "-") ∷ []) ∷ []; counter = 1 };
}

built_test :
    (build_query words never_blank false build_other nested main false empty_context).1.tokens
    ≡ text "select * from "
      ∷ text "("
      ∷ text "select "
      ∷ value 7
      ∷ text ")"
      ∷ text " as \"query_1\""
      ∷ text " where "
      ∷ operator "a"
      ∷ text ", "
      ∷ operator "b"
      ∷ []
unfolding build_query ◌>>=◌ add_query insert ◌>>◌ next is_cte add_values add_operator
built_test = refl

build_other-After : (name : String) (s : Context ℕ ℕ) → After s (build_other name s).1
unfolding add_operator
build_other-After name s = record {
  same_queries = refl;
  same_outer = refl;
  written = (operator name ∷ [], refl);
}

build_query-Restored_example :
    Restored main empty_context
      (build_query words never_blank false build_other nested main false empty_context).1
build_query-Restored_example =
    build_query-Restored words never_blank false build_other build_other-After nested main false
      empty_context
