-- ===== src/Registry.antt =====
-- execution/sql-query-registry.ts: queries by plugin and hash, the parameters that a call passes
-- on, and the execution through the pipeline. The proofs are in the modules below.
pub mod Params
pub mod Lookup
mod Tests
use vexnor.Base.{
  ℕ, String, Bool, true, false, ◌||◌, Option, none, some, List, [], ◌∷◌, ◌++◌, map, if◌then◌else◌,
  ltb, length,
}
use vexnor.Base.Dict.{Dict, lookup, insert, has_key, has, add}
use vexnor.Errors.{
  Thrown, other_error, Outcome, returned, threw, Action, ◌>>=◌, ◌>>◌, pure, raise, or_else,
  SqlErrorCode,
}
use vexnor.Pipeline.{
  Query, Mode, ExecutionArgs, Shared, RetryOptions, Pipeline, authorized, check_authorization,
}
use vexnor.Pipeline.Run.{execute}

-- What the registry reads of a `SqlQuery`: its hash, what the pipeline reads, and its parameters,
-- each with `isContext`.
pub record Registered : Type 0 where
  pub hash : String
  pub query : Query
  pub params : Option (Dict Bool)

-- An entry of `maps`.
pub record MapEntry : Type 0 where
  pub query : Registered
  pub name : String

-- A value of the query map: a `SqlQuery`, a `SqlQueryHandler` with its source, or anything else.
pub data Export : Type 0 where
  sql_query handler : Registered → Export
  foreign : Export

pub record Registry (P C W : Type 0) : Type 0 where
  pub pipeline : Pipeline P C W
  pub maps : Dict (Dict MapEntry)
  pub plugins : List String
  pub strict_params : Bool

-- `ExecuteQueryArgs`, with its `options.retry` for the whole of its options
pub record ExecuteQueryArgs (V E S : Type 0) : Type 0 where
  pub plugin : String
  pub hash : String
  pub params : Dict V
  pub mode : Mode
  pub retry : Option (Option (RetryOptions E S))

-- The entry of a hash, an empty map for a plugin that is not there.
abbrev pub map_of : String → Dict (Dict MapEntry) → Dict MapEntry
map_of plugin maps = or_else (lookup plugin maps) []

abbrev pub entry_of : String → String → Dict (Dict MapEntry) → Option MapEntry
entry_of plugin hash maps = lookup hash (map_of plugin maps)

-- The `switch` of `register`.
abbrev pub source_of : Export → Option Registered
source_of (sql_query q) = some q
source_of (handler q) = some q
source_of foreign = none

abbrev pub not_a_query : Thrown
not_a_query = other_error "QUERY_BUILD_FAILED"

abbrev pub store : String → Registered → Dict MapEntry → Dict MapEntry
store name q m = insert q.hash (record { query = q; name = name }) m

-- The loop of `register`: the entries before one that is no query stay.
unfoldable pub add_queries :
    List (String × Export) → Dict MapEntry → Outcome {0} Unit × Dict MapEntry
add_queries [] m = (returned tt, m)
add_queries ((name, e) ∷ rest) m = elim (source_of e) [
  | none ↦ (threw not_a_query, m)
  | some q ↦ add_queries rest (store name q m)
]

abbrev pub queries_in : Dict MapEntry → List Query
queries_in [] = []
queries_in ((hash, e) ∷ m) = e.query.query ∷ queries_in m

abbrev pub queries_of : Dict (Dict MapEntry) → List Query
queries_of [] = []
queries_of ((plugin, m) ∷ maps) = queries_in m ++ queries_of maps

module _ {P C W : Type 0} where
  unfoldable pub register :
      String → List (String × Export) → Registry P C W → Outcome {0} Unit × Registry P C W
  unfolding add_queries
  register plugin queries r =
      let added = add_queries queries (map_of plugin r.maps) in
      (added.0, record r { plugins = add plugin r.plugins; maps = insert plugin added.1 r.maps })

  -- `getQueries`
  abbrev pub get_queries : Registry P C W → List Query
  get_queries r = queries_of r.maps

  -- `checkAuthorization`: the code of the error that it throws, if it throws.
  unfoldable pub check_registered : Registry P C W → Option SqlErrorCode
  unfolding check_authorization
  check_registered r = check_authorization r.pipeline (get_queries r)

  -- `getAuthorizedQueries`
  unfoldable pub get_authorized_queries : Registry P C W → List Query
  unfolding authorized
  get_authorized_queries r = authorized (get_queries r)

-- `filterParams`
unfoldable pub filter_declared : {V : Type 0} → Dict Bool → Dict V → Dict V
filter_declared declared [] = []
filter_declared declared ((key, v) ∷ params) =
    let rest = filter_declared declared params in
    if has_key key declared then (key, v) ∷ rest else rest

unfoldable pub filter_params : {V : Type 0} → Registered → Dict V → Dict V
unfolding filter_declared
filter_params q params = elim q.params [
  | none ↦ []
  | some declared ↦ filter_declared declared params
]

-- The loop of `mergeRuntimeParams`; `undefined` is what a missing key reads as.
unfoldable pub merge_declared : {V : Type 0} → V → Dict Bool → Dict V → Dict V → Dict V
merge_declared undefined [] runtime merged = merged
merge_declared undefined ((key, is_context) ∷ declared) runtime merged =
    merge_declared undefined declared runtime
      (if is_context then insert key (or_else (lookup key runtime) undefined) merged else merged)

abbrev pub has_runtime : Dict Bool → Bool
has_runtime [] = false
has_runtime ((key, is_context) ∷ declared) = is_context || has_runtime declared

unfoldable pub merge_params : {V : Type 0} → V → Option (Dict Bool) → Dict V → Dict V → Dict V
unfolding merge_declared
merge_params undefined none params runtime = params
merge_params undefined (some declared) params runtime =
    if has_runtime declared then merge_declared undefined declared runtime params else params

-- `mergeRuntimeParams`
abbrev pub merge_runtime_params : {V : Type 0} → V → Registered → Dict V → Dict V → Dict V
unfolding merge_params
merge_runtime_params undefined q params runtime = merge_params undefined q.params params runtime

module _ {V : Type 0} (undefined : V) where
  -- The arguments for the pipeline: of the filtered parameters, with those of the context.
  unfoldable pub execution_args :
      Bool → String → MapEntry → Mode → Dict V → Dict V → ExecutionArgs (Dict V) (Dict V)
  unfolding merge_params filter_params
  execution_args strict plugin e mode params context =
      let filtered = if strict then filter_params e.query params else params in
      record {
        plugin = plugin;
        query = e.query.query;
        name = e.name;
        mode = mode;
        params = merge_runtime_params undefined e.query filtered context;
        context = context;
      }

module _ {V W A : Type 0} (undefined : V) where
  -- `execute` without `viewBy`. `run` stands for the resolver of the connection and the query
  -- handler, which get the arguments for the pipeline and, of the call, the parameters as they came.
  unfoldable pub execute_entry :
      (clock : Shared W → ℕ)
      → (sleep : ℕ → Action (Shared W) Unit)
      → (run : ExecutionArgs (Dict V) (Dict V) → Dict V → Action (Shared W) A)
      → Registry (Dict V) (Dict V) W
      → ExecuteQueryArgs V (ExecutionArgs (Dict V) (Dict V)) (Shared W)
      → (context : Dict V) → Option MapEntry
      → Action (Shared W) A
  unfolding execution_args execute
  execute_entry clock sleep run r args context none = raise (other_error "QUERY_NOT_FOUND")
  execute_entry clock sleep run r args context (some e) =
      if has args.plugin r.plugins
      then (let given =
            execution_args undefined r.strict_params args.plugin e args.mode args.params context in
          execute clock sleep r.pipeline given (λ attempt. run given args.params) args.retry)
      else raise (other_error "Unknown plugin")

  unfoldable pub execute_registered :
      (clock : Shared W → ℕ)
      → (sleep : ℕ → Action (Shared W) Unit)
      → (run : ExecutionArgs (Dict V) (Dict V) → Dict V → Action (Shared W) A)
      → Registry (Dict V) (Dict V) W
      → ExecuteQueryArgs V (ExecutionArgs (Dict V) (Dict V)) (Shared W)
      → (context : Dict V) → Action (Shared W) A
  unfolding execute_entry
  execute_registered clock sleep run r args context =
      execute_entry clock sleep run r args context (entry_of args.plugin args.hash r.maps)
