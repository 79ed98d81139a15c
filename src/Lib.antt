-- ===== src/Lib.antt =====
-- vexnor: the execution layer of packages/core, the schema graph, the selection of schema objects,
-- and the operators that write a query's conditions, order and page.
--
-- A query runs through a pipeline (execution/sql-query-pipeline.ts): the init event, authorization
-- hooks, check plugins, attempts under a retry policy (core/query/sql-retry.ts), each with the
-- concurrency limit and the before event around the query, and at last the end event. Plugins hook
-- into these phases (execution/sql-query-pipeline-plugin.ts); the rate limiter
-- (execution/time-to-live-rate-limiter.ts) is one. A query handler
-- (core/query/sql-query-handler.ts) validates the parameters of a run and sends the query to a
-- remote client, a pipeline or a database client. The text of a query is built
-- (core/query/sql-query.ts) in a build context (core/builder/sql-build-context.ts), which reads the
-- keywords with a tokenizer (core/builder/default-tokenizer.ts). The schema graph
-- (execution/schema-graph.ts) finds join paths over the foreign keys of a schema. The query
-- registry (execution/sql-query-registry.ts) looks queries up by plugin and hash, merges the
-- parameters of the client with those of the context, and runs them through its pipeline. The
-- operators (core/operators/sql-filter-by.ts, sql-order-by.ts, sql-pagination.ts,
-- sql-project-by.ts) turn parameters into texts and bound values. The schema selection
-- (schema/schema-selection.ts) decides which objects of a catalog are allowed, and the catalog
-- (schema/schema-catalog.ts) describes them for others, and refuses identities that stand twice.
-- All paths are below packages/core/src/.
--
-- Files:
--   Base             lists, Boolean tests, and JavaScript's maps as association lists
--   Errors           core/sql-error-code.ts, core/sql-run-error.ts; calls that may throw, as actions
--                    over a state that keeps what was written before a throw; Errors/Keeps,
--                    invariants of actions
--   Pipeline         the plugin interface and registration: `use` is `attach`, its unsubscribe
--                    function `unsubscribe`, `SqlQueryPipeline.from` is `from_source`
--   Pipeline/Retry   runWithRetry
--   Pipeline/Run     runAuthorize, runCheckPlugins, checkMaxConcurrent, the listeners, execute
--   Pipeline/Phases, Bracket, Gates, Attempts, Interleave, Registration: proofs
--   RateLimiter      init, check, end, sweep and clearContextMetrics, each with the clock's reading
--   RateLimiter/Attached   the limiter as a plugin of a pipeline
--   RateLimiter/Metrics, Counts, Sweep, Sound: proofs
--   SchemaGraph      the constructor, getFkGraph and the search of joinPath
--   SchemaGraph/Ident, Steps   table identifiers; join steps and shortestPathFromConnected
--   SchemaGraph/Plan, Info   join and joinBy; table and the texts for prompts
--   SchemaGraph/Edges, Search, Shortest, Symmetry, Joins, PlanOrder, PlanReach: proofs
--   Registry         register, filterParams, mergeRuntimeParams, execute
--   Registry/Params, Lookup: proofs
--   Handler          run and runLocal of a query handler (core/query/sql-query-handler.ts)
--   Handler/Validation, Rows   validateParams; all, one, first and any
--   Handler/Local, Repeats, Leaks: proofs
--   FilterBy         writeConditions, writeEntry and writeOp of the filter operator
--   FilterBy/Bound, Printed: proofs
--   ProjectBy        the select list (core/operators/sql-project-by.ts); ProjectBy/Transform, its
--                    functions; ProjectBy/GroupBy, SqlProjectionGroupBy
--   ProjectBy/Inlined: proofs
--   Ordering         the order and the pagination operator; Ordering/Quote, names in quotes
--   Ordering/Clauses: proofs
--   Selection        resolveSchemaSelection and reconcileSchemaSelection
--   Selection/Allowed, Requested: proofs
--   BuildContext     the build context of a query (core/builder/sql-build-context.ts):
--   BuildContext/Keywords   next, the getters keyword and keywords (core/sql-constants.ts)
--   BuildContext/AliasNames, Aliases   getTableId; setAlias and getAlias
--   BuildContext/Queries    addQuery and isCTE
--   BuildContext/Scope      addStrings, addValues, addParam, addOperator, addColumns and scope
--   BuildContext/Tokenizer  tokenize of core/builder/default-tokenizer.ts
--   BuildContext/Nesting, AliasFresh, Numbered, AddQuery, Restores, Tokens: proofs
--   QueryBuild       write, buildInnerToken and buildInnerQueryRef (core/query/sql-query.ts) of a query
--                    without a view
--   QueryBuild/Scopes, Restores: proofs
--   Rendering        getSql over the tokens of a build (core/query/sql-query.ts), with the values of
--                    parameters (core/query/sql-param.ts); Rendering/Values, resolvePath
--   Rendering/Bound: proofs
--   Catalog          assertUnique, assertUniqueObjectIds and assertUniqueColumnIds
--   Catalog/Source, Content   the schema that a plugin reads; what a catalog holds
--   Catalog/Sorting, Columns, Build   the comparisons; createPrimaryKey, createRelationships and
--                    the columns; createSchemaCatalog (all of schema/schema-catalog.ts)
--   Catalog/Canonical, Independent, Groups, Identities: proofs
-- Tests modules hold concrete inputs.
--
-- The state of an execution is the pipeline's counter and a world that the callbacks may change;
-- hooks, the query, the clock and the waits between attempts are parameters. One execution is a
-- function of that state; executions that overlap are sequences of steps (Pipeline/Interleave).
-- Numbers are natural: the counter of a pipeline is decremented only after it was incremented. A
-- retry policy's number of attempts is whole (a policy of NaN attempts is not modelled). The search
-- of a join path runs on fuel, a turn for each edge of the graph and one for the start; the queue
-- never needs more, which its result on completeness includes. The loop of addQuery has a turn for
-- each query inside the given one and one for the start, that of tokenize one for each character
-- and one for the end. The hooks get the arguments of an execution as a value: `execute` reuses the
-- arguments' object for the end event, which a plugin that keeps the object could see.
--
-- An operator's output is a list of tokens, and an error of a build is `none`. What a column
-- writes, the lower case of names, `trim`, the order of texts, the resolver of connections and,
-- for the registry, the query handlers are parameters. A query handler's execution runs beside the timer of its timeout:
-- the clock before and after it says which settles first.
--
-- Not modelled: texts of messages, causes and parameters in errors, the warning about a throwing
-- error handler, `clear` of the pipeline, the cache of getFkGraph (it is computed from tables that
-- do not change), the query object that a join carries, views of queries and their filters in a
-- build, the deserialization of rows and the metadata of results, the getter text, addQuotes and
-- the formatter of a build context, the operator tokens of a build without parameters, the file
-- store around the selection, and the other parts of the repository.
pub mod Base
pub mod Errors
pub mod Pipeline
pub mod RateLimiter
pub mod Registry
pub mod SchemaGraph
pub mod FilterBy
pub mod Selection
pub mod BuildContext
pub mod Catalog
pub mod Handler
pub mod Ordering
pub mod ProjectBy
pub mod QueryBuild
pub mod Rendering
