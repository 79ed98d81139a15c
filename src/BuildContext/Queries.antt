-- ===== src/BuildContext/Queries.antt =====
-- core/builder/sql-build-context.ts: the queries that a context knows, `addQuery` and `isCTE`, with
-- the queue of lib/queue.ts. A query is its identifier, its label and the queries inside it.
use vexnor.Base.{
  ℕ, zero, suc, ◌+◌, String, Bool, true, false, Option, none, some, List, [], ◌∷◌, ◌++◌, length,
}
use Prim.Native.String.{◌++◌ as str_append}
use vexnor.Base.Digits.{decimal}
use vexnor.Base.Dict.{Dict, lookup, insert, has_key}
use vexnor.Errors.{or_else}

mutual
  pub data Query : Type 0 where
    query : (id : String) → (label : Option String) → Inner → Query

  -- `innerQueries`
  pub data Inner : Type 0 where
    no_more : Inner
    and_also : Query → Inner → Inner

abbrev pub id_of : Query → String
id_of (query id label inner) = id

abbrev pub label_of : Query → Option String
label_of (query id label inner) = label

abbrev pub as_list : Inner → List Query
as_list no_more = []
as_list (and_also q qs) = q ∷ as_list qs

abbrev pub inner_queries : Query → List Query
inner_queries (query id label inner) = as_list inner

-- How many queries a query is made of.
unfoldable mutual
  pub size : Query → ℕ
  size (query id label inner) = suc (size_inner inner)

  pub size_inner : Inner → ℕ
  size_inner no_more = 0
  size_inner (and_also q qs) = size q + size_inner qs

unfoldable pub size_all : List Query → ℕ
unfolding size
size_all [] = 0
size_all (q ∷ qs) = size q + size_all qs

-- `QueryInfo`
pub record QueryInfo : Type 0 where
  pub index : ℕ
  pub source : Query
  pub cte : Bool
  pub name : String

-- innerQuery.info?.label ?? `query_${startIndex + offset}`, and the override
unfoldable pub info_of : Option Bool → ℕ → Query → QueryInfo
unfolding decimal
info_of override index q = record {
  index = index;
  source = q;
  cte = or_else override false;
  name = or_else (label_of q) (str_append "query_" (decimal index));
}

-- The loop of `addQuery`. `none` is the end of the fuel.
unfoldable pub register :
    ℕ → Option Bool → (start offset : ℕ) → List Query → Dict QueryInfo → Option (Dict QueryInfo)
unfolding info_of
register zero override start offset queue m = none
register (suc fuel) override start offset [] m = some m
register (suc fuel) override start offset (q ∷ queue) m = elim (has_key (id_of q) m) [
  | true ↦ register fuel override start offset queue m
  | false ↦
      register fuel override start (offset + 1) (queue ++ inner_queries q)
        (insert (id_of q) (info_of override (start + offset) q) m)
]

-- this.queries.set(query.id, { ...existing, ...override })
abbrev pub overridden : Option Bool → String → Option QueryInfo → Dict QueryInfo → Dict QueryInfo
overridden none id existing m = m
overridden (some cte) id none m = m
overridden (some cte) id (some existing) m = insert id (record existing { cte = cte }) m

abbrev pub with_entry :
    String → Option (Dict QueryInfo) → Option (Option QueryInfo × Dict QueryInfo)
with_entry id none = none
with_entry id (some m) = some (lookup id m, m)

-- `addQuery`: the entry and the queries. The fuel is the number of queries inside.
unfoldable pub add_query :
    Query → Option Bool → Dict QueryInfo → Option (Option QueryInfo × Dict QueryInfo)
unfolding register size_all
add_query q override m = elim (has_key (id_of q) m) [
  | false ↦
      with_entry (id_of q) (register (suc (size_all (q ∷ []))) override (length m) 0 (q ∷ []) m)
  | true ↦ with_entry (id_of q) (some (overridden override (id_of q) (lookup (id_of q) m) m))
]

-- `isCTE`; `none` is the failed assertion.
unfoldable pub is_cte : Query → Dict QueryInfo → Option Bool
is_cte q m = elim (lookup (id_of q) m) [ none ↦ none | some info ↦ some info.cte ]
