-- ===== src/QueryBuild/Restores.antt =====
-- What the build of a query, with all that stands in it, leaves as it was.
use vexnor.Base.{Option, some, Bool, true, false, String, List, [], ◌∷◌}
use vexnor.Errors.{Action, or_else, pure}
use vexnor.Errors.Keeps.{Keeps, Keeps-pure, Keeps-then, Keeps-bind, Keeps-if}
use vexnor.BuildContext.Keywords.{top, pop}
use vexnor.BuildContext.Queries.{Query}
use vexnor.BuildContext.Scope.{Context, QueryType, main}
use vexnor.QueryBuild.{
  Format, with_format, select_format, join_format, from_format, fn_format, default_format,
  format_of, in_quotes, as_subquery, build_as, Tree, tree, Children, no_child, child, children,
  Sqls, no_sql, sql, Sql, value, token, recursive_query, inner_query, build_query, bounded, between,
  build_children, build_sqls, build_sql,
}
use vexnor.QueryBuild.Scopes.{
  After, Restored, scope-Restored, Keeps-step, Keeps-add_strings, Keeps-add_values,
  Keeps-get_query_name, Keeps-current_query_name, Keeps-emit, Keeps-set_hints, Keeps-keyword,
  Keeps-is_cte_in, Keeps-boundary, Keeps-scope,
}

ruleset build_rules = (
  Keeps-pure, Keeps-then, Keeps-bind, Keeps-if, Keeps-add_strings, Keeps-add_values,
  Keeps-get_query_name, Keeps-current_query_name, Keeps-emit, Keeps-set_hints, Keeps-keyword,
  Keeps-is_cte_in, Keeps-boundary,
)

module _ {V C : Type 0} where
  Keeps-as_subquery :
      (name : String) (build : Action (Context V C) (Unit {0})) (s : Context V C)
      → Keeps (After s) build
      → Keeps (After s) (as_subquery name build)
  unfolding pure as_subquery
  Keeps-as_subquery name build s k = search build_rules

  Keeps-build_as :
      (format : Format) (q : Query) (type : Option QueryType)
      (build : QueryType → Bool → Action (Context V C) (Unit {0})) (s : Context V C)
      → ((y : QueryType) (cte : Bool) → Keeps (After s) (build y cte))
      → Keeps (After s) (build_as format q type build)
  unfolding build_as
  Keeps-build_as with_format q type build s k = search (build_rules, k)
  Keeps-build_as select_format q type build s k = search (build_rules, k, Keeps-as_subquery)
  Keeps-build_as join_format q type build s k = search (build_rules, k, Keeps-as_subquery)
  Keeps-build_as from_format q type build s k = search (build_rules, k, Keeps-as_subquery)
  Keeps-build_as fn_format q type build s k = search build_rules
  Keeps-build_as default_format q type build s k = k (or_else type main) false

  Keeps-bounded :
      (comments : Bool) (q : Query) (build : Action (Context V C) (Unit {0})) (s : Context V C)
      → Keeps (After s) build
      → Keeps (After s) (bounded comments q build)
  unfolding bounded
  Keeps-bounded comments q build s k = search build_rules

  Keeps-between :
      (tokenize : String → List String) (is_blank : String → Bool) (raw_strings : List String)
      (build : Action (Context V C) (Unit {0})) (s : Context V C)
      → Keeps (After s) build
      → Keeps (After s) (between tokenize is_blank raw_strings build)
  unfolding between
  Keeps-between tokenize is_blank raw_strings build s k = search build_rules

module _ {V C T : Type 0} (tokenize : String → List String) (is_blank : String → Bool)
    (boundary_comments : Bool) (build_token : T → Action (Context V C) (Unit {0}))
    (keeps : (x : T) (s : Context V C) → After s (build_token x s).1) where
  mutual
    unfolding build_query

    -- What one token keeps is kept by a query of such tokens, however it nests.
    pub Keeps-build_query :
        (q : Tree V T) (type : QueryType) (cte : Bool) (s : Context V C)
        → Keeps (After s) (build_query tokenize is_blank boundary_comments build_token q type cte)
    Keeps-build_query (tree q label raw_strings rest) type cte =
        Keeps-scope label q
          (bounded boundary_comments q
            (build_children tokenize is_blank boundary_comments build_token raw_strings rest))
          type (some cte)
          (λ s. Keeps-bounded boundary_comments q _ s (Keeps-build_children raw_strings rest s))

    Keeps-build_children :
        (raw_strings : List String) (xs : Children V T) (s : Context V C)
        → Keeps
            (After s)
            (build_children tokenize is_blank boundary_comments build_token raw_strings xs)
    Keeps-build_children raw_strings no_child s = Keeps-emit tokenize is_blank (top raw_strings) s
    Keeps-build_children raw_strings (child x rest) s =
        Keeps-then _ _ (Keeps-between tokenize is_blank raw_strings _ s (Keeps-build_sql x s))
          (Keeps-build_children (pop raw_strings) rest s)
    Keeps-build_children raw_strings (children xs rest) s =
        Keeps-then _ _
          (Keeps-between tokenize is_blank raw_strings _ s (Keeps-build_sqls false xs s))
          (Keeps-build_children (pop raw_strings) rest s)

    Keeps-build_sqls :
        (behind : Bool) (xs : Sqls V T) (s : Context V C)
        → Keeps (After s) (build_sqls tokenize is_blank boundary_comments build_token behind xs)
    Keeps-build_sqls behind no_sql s = Keeps-pure tt
    Keeps-build_sqls behind (sql x xs) s =
        Keeps-then _ _ (Keeps-boundary behind ", " s)
          (Keeps-then _ _ (Keeps-build_sql x s) (Keeps-build_sqls true xs s))

    Keeps-build_sql :
        (x : Sql V T) (s : Context V C)
        → Keeps (After s) (build_sql tokenize is_blank boundary_comments build_token x)
    Keeps-build_sql (value v) s = Keeps-add_values (v ∷ []) s
    Keeps-build_sql (token t) s = Keeps-step _ s (keeps t)
    Keeps-build_sql recursive_query s =
        Keeps-bind _ _ (Keeps-current_query_name s)
          (λ name. Keeps-add_strings (in_quotes name ∷ []) s)
    Keeps-build_sql (inner_query format type (tree q label raw_strings rest)) s =
        Keeps-bind _ _ (Keeps-keyword s) (λ k.
          Keeps-build_as (format_of format k) q type _ s
            (λ y cte. Keeps-build_query (tree q label raw_strings rest) y cte s))

  -- Where the build of each other token only appends tokens and leaves the queries under way and
  -- all alias maps but the innermost as they are, whether it returns or throws, the build of a
  -- query with all its children does so too, and ends with the expression depth and, for a main
  -- query, with all the alias maps with which it began.
  pub build_query-Restored :
      (q : Tree V T) (type : QueryType) (cte : Bool) (s : Context V C)
      → Restored type s (build_query tokenize is_blank boundary_comments build_token q type cte s).1
  unfolding build_query
  build_query-Restored (tree q label raw_strings rest) type cte =
      scope-Restored label q _ type (some cte)
        (λ s. Keeps-bounded boundary_comments q _ s (Keeps-build_children raw_strings rest s))
