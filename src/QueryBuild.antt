-- ===== src/QueryBuild.antt =====
-- core/query/sql-query.ts: `write` of a query without a view, `buildInnerToken` and
-- `buildInnerQueryRef`, and core/query/sql-query-ref.ts. What any other token writes (a column, a
-- table, an operator) is an argument.
mod Tests
pub mod Scopes
pub mod Restores
use Prim.Native.String.{◌++◌ as str_append}
use vexnor.Base.{String, Bool, true, false, Option, none, some, List, [], ◌∷◌, if◌then◌else◌, ◌==◌}
use vexnor.Base.Dict.{Dict, lookup}
use vexnor.Errors.{Outcome, returned, threw, other_error, Action, or_else, pure, raise, ◌>>=◌, ◌>>◌}
use vexnor.BuildContext.Keywords.{KeywordState, top, pop, last_keyword, next}
use vexnor.BuildContext.Queries.{Query, QueryInfo, add_query, is_cte}
use vexnor.BuildContext.Scope.{Context, QueryType, main, inline, add_strings, add_values, scope}

-- `SqlQueryFormat`
pub data Format : Type 0 where
  with_format select_format join_format from_format fn_format default_format : Format

-- `SqlQueryFormatByKeyword`
abbrev pub format_by_keyword : Dict Format
format_by_keyword =
    ("with recursive", with_format)
    ∷ ("recursive", with_format)
    ∷ ("with", with_format)
    ∷ ("from", from_format)
    ∷ ("select", select_format)
    ∷ ("join", join_format)
    ∷ ("fn", fn_format)
    ∷ ("default", default_format)
    ∷ ("in", default_format)
    ∷ ("exists", default_format)
    ∷ []

-- scope?.queryFormat ?? SqlQueryFormatByKeyword[context.keyword ?? "default"] ?? null, where null is
-- treated like "default"
unfoldable pub format_of : Option Format → (keyword : Option String) → Format
unfolding lookup
format_of (some f) keyword = f
format_of none keyword =
    or_else (lookup (or_else keyword "default") format_by_keyword) default_format

-- A query with its texts and what stands between them. A token is a value, a query (or a reference
-- to one, with its scope and whether it is recursive), or anything else that builds itself.
mutual
  pub data Tree (V T : Type 0) : Type 0 where
    tree : Query → (label : String) → (raw_strings : List String) → Children V T → Tree V T

  pub data Children (V T : Type 0) : Type 0 where
    no_child : Children V T
    child : Sql V T → Children V T → Children V T
    children : Sqls V T → Children V T → Children V T

  pub data Sqls (V T : Type 0) : Type 0 where
    no_sql : Sqls V T
    sql : Sql V T → Sqls V T → Sqls V T

  pub data Sql (V T : Type 0) : Type 0 where
    value : V → Sql V T
    token : T → Sql V T
    recursive_query : Sql V T
    inner_query : Option Format → Option QueryType → Tree V T → Sql V T

-- `"${name}"`
abbrev pub in_quotes : String → String
in_quotes name = str_append "\"" (str_append name "\"")

module _ {V C : Type 0} where
  abbrev named : Option (Option QueryInfo × Dict QueryInfo) → Action (Context V C) String
  named none s = (threw (other_error "No SqlQuery found"), s)
  named (some (none, m)) s = (threw (other_error "No SqlQuery found"), record s { queries = m })
  named (some (some info, m)) s = (
    (if info.name == "" then threw (other_error "No SqlQuery found") else returned info.name),
    record s { queries = m },
  )

  -- `getQueryName`, of a query
  unfoldable pub get_query_name : Query → Action (Context V C) String
  get_query_name q s = named (add_query q none s.queries) s

  abbrev name_of_top : Option Query → Action (Context V C) String
  unfolding get_query_name
  name_of_top none s = (threw (other_error "TypeError"), s)
  name_of_top (some q) s = get_query_name q s

  -- `getQueryName`, of a recursive reference: the query under way
  unfoldable pub current_query_name : Action (Context V C) String
  unfolding get_query_name
  current_query_name s = name_of_top (top s.query_stack) s

  abbrev with_keywords : Option KeywordState → Action (Context V C) (Unit {0})
  with_keywords none s = (threw (other_error "Current stack is empty"), s)
  with_keywords (some k) s = (returned tt, record s { keywords = k })

  -- context.addStrings(rawString); context.next(rawString), where there is a text
  unfoldable pub emit :
      (tokenize : String → List String) (is_blank : String → Bool)
      → Option String
      → Action (Context V C) (Unit {0})
  emit tokenize is_blank none = pure tt
  emit tokenize is_blank (some s) =
      if s == ""
      then pure tt
      else add_strings (s ∷ []) >> λ c. with_keywords (next tokenize is_blank s c.keywords) c

  -- The two hints for the formatter.
  unfoldable pub set_hints : (next_text prev_text : Option String) → Action (Context V C) (Unit {0})
  set_hints next_text prev_text s =
      (returned tt, record s { next_text = next_text; prev_text = prev_text })

  abbrev found_keyword : List (List String) → Action (Context V C) (Option String)
  found_keyword [] s = (threw (other_error "Current stack is empty"), s)
  found_keyword (k ∷ ks) s = (returned (last_keyword k), s)

  -- The getter `keyword`.
  unfoldable pub keyword : Action (Context V C) (Option String)
  unfolding last_keyword
  keyword s = found_keyword s.keywords.stacks s

  abbrev known_cte : Option Bool → Action (Context V C) Bool
  known_cte none s = (threw (other_error "SqlQuery not registered in this context"), s)
  known_cte (some b) s = (returned b, s)

  -- `isCTE`
  unfoldable pub is_cte_in : Query → Action (Context V C) Bool
  is_cte_in q s = known_cte (is_cte q s.queries) s

  -- (…) as "name"
  abbrev pub as_subquery :
      String → Action (Context V C) (Unit {0}) → Action (Context V C) (Unit {0})
  unfolding add_strings
  as_subquery name build = do
    add_strings ("(" ∷ [])
    build
    add_strings (")" ∷ [])
    add_strings (str_append " as " (in_quotes name) ∷ [])

  -- The cases of `buildInnerQueryRef`; `build` builds the query as the given type, with the `cte`
  -- of the call.
  unfoldable pub build_as :
      Format
      → Query
      → Option QueryType
      → (build : QueryType → Bool → Action (Context V C) (Unit {0}))
      → Action (Context V C) (Unit {0})
  unfolding get_query_name is_cte_in as_subquery add_strings
  build_as with_format q type build = do
    name ← get_query_name q
    add_strings (str_append (in_quotes name) " as (" ∷ [])
    build main true
    add_strings (")" ∷ [])
  build_as select_format q type build = do
    name ← get_query_name q
    as_subquery name (build main false)
  build_as join_format q type build = do
    name ← get_query_name q
    cte ← is_cte_in q
    if cte then add_strings (in_quotes name ∷ []) else as_subquery name (build main false)
  build_as from_format q type build = do
    name ← get_query_name q
    cte ← is_cte_in q
    if cte then add_strings (in_quotes name ∷ []) else as_subquery name (build main false)
  build_as fn_format q type build = do name ← get_query_name q; add_strings (in_quotes name ∷ [])
  build_as default_format q type build = build (or_else type main) false

  -- A comment at the boundary of a query, if the options ask for it.
  unfoldable pub boundary : Bool → String → Action (Context V C) (Unit {0})
  unfolding add_strings
  boundary false text = pure tt
  boundary true text = add_strings (text ∷ [])

  -- The callback of the scope of `write`; `build` is the loop.
  unfoldable pub bounded :
      Bool → Query → (build : Action (Context V C) (Unit {0})) → Action (Context V C) (Unit {0})
  unfolding get_query_name boundary
  bounded comments q build = do
    name ← get_query_name q
    boundary comments (str_append " /* <" (str_append name "> */ "))
    build
    boundary comments (str_append "/* </" (str_append name "> */"))

  -- One round of the loop over the texts and the children; `build` builds the child.
  unfoldable pub between :
      (tokenize : String → List String) (is_blank : String → Bool)
      → List String
      → (build : Action (Context V C) (Unit {0})) → Action (Context V C) (Unit {0})
  unfolding emit set_hints
  between tokenize is_blank raw_strings build = do
    emit tokenize is_blank (top raw_strings)
    set_hints (top (pop raw_strings)) (top raw_strings)
    build
    set_hints none none

module _ {V C T : Type 0} (tokenize : String → List String) (is_blank : String → Bool)
    (boundary_comments : Bool) (build_token : T → Action (Context V C) (Unit {0})) where
  unfoldable mutual
    unfolding scope bounded current_query_name emit between keyword build_as format_of boundary

    -- `write`, with the type and the `cte` of the scope
    pub build_query : Tree V T → QueryType → Bool → Action (Context V C) (Unit {0})
    build_query (tree q label raw_strings rest) type cte =
        scope label q (bounded boundary_comments q (build_children raw_strings rest)) type
          (some cte)

    -- The loop over the texts and the children.
    pub build_children : List String → Children V T → Action (Context V C) (Unit {0})
    build_children raw_strings no_child = emit tokenize is_blank (top raw_strings)
    build_children raw_strings (child x rest) = do
      between tokenize is_blank raw_strings (build_sql x)
      build_children (pop raw_strings) rest
    build_children raw_strings (children xs rest) = do
      between tokenize is_blank raw_strings (build_sqls false xs)
      build_children (pop raw_strings) rest

    -- The loop over an array; the Boolean says that an element stands before.
    pub build_sqls : Bool → Sqls V T → Action (Context V C) (Unit {0})
    build_sqls behind no_sql = pure tt
    build_sqls behind (sql x xs) = do boundary behind ", "; build_sql x; build_sqls true xs

    -- `buildInnerToken`
    pub build_sql : Sql V T → Action (Context V C) (Unit {0})
    build_sql (value v) = λ s. (returned tt, add_values (v ∷ []) s)
    build_sql (token t) = build_token t
    build_sql recursive_query = do name ← current_query_name; add_strings (in_quotes name ∷ [])
    build_sql (inner_query format type (tree q label raw_strings rest)) = do
      k ← keyword
      build_as (format_of format k) q type (build_query (tree q label raw_strings rest))
