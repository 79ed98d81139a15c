-- ===== src/Handler.antt =====
-- core/query/sql-query-handler.ts: `run` and `runLocal`. What a plugin's handler overrides
-- (`execute`, `deserialize`, `serialize`, `resolveRows`), the connection and the name of the query,
-- which a dynamic import gives, are arguments. The metadata of results is not modelled.
mod Tests
pub mod Validation
pub mod Rows
pub mod Local
pub mod Repeats
pub mod Leaks
use vexnor.Base.{
  ℕ, zero, suc, ◌+◌, ltb, String, Bool, true, false, Option, none, some, List, [], ◌∷◌,
  if◌then◌else◌, length,
}
use vexnor.Base.Dict.{Dict}
use vexnor.Errors.{
  Thrown, run_error, other_error, Outcome, returned, threw, Action, ◌>>=◌, ◌>>◌, pure, raise, catch,
  new_run_error, with_options, SqlRunError, query_timeout, query_execution_failed,
  multi_source_query, or_else,
}
use vexnor.Pipeline.{Query, Mode, ExecutionArgs, Shared, RetryArgs, RetryOptions, Pipeline}
use vexnor.Pipeline.Retry.{run_with_retry}
use vexnor.Pipeline.Run.{execute}
use vexnor.Rendering.Values.{Value, Fields, end, field, is_context}

-- `options.retryable`: "default", true or false
pub data Retryable : Type 0 where
  as_default always never : Retryable

-- What the handler reads of its query: `sources` is a set.
pub record Source : Type 0 where
  pub query : Query
  pub hash : String
  pub label : Option String
  pub sources : List String

-- `SqlRunOptions`. In `retry`, the inner `none` is false.
pub record RunOptions (E S : Type 0) : Type 0 where
  pub timeout : Option ℕ
  pub retryable : Option Retryable
  pub retry : Option (Option (RetryOptions (Option E) S))

-- `resolveRetryable`
unfoldable pub resolve_retryable : Bool → Option Retryable → Bool
resolve_retryable plugin_retryable none = plugin_retryable
resolve_retryable plugin_retryable (some as_default) = plugin_retryable
resolve_retryable plugin_retryable (some always) = true
resolve_retryable plugin_retryable (some never) = false

abbrev retryable_as : Bool → SqlRunError → SqlRunError
unfolding with_options
retryable_as b e =
    with_options e (record { query_name = none; sql = none; code = none; retryable = some b })

-- The `catch` of `runLocal`.
unfoldable pub local_error : Source → Option Retryable → Thrown → Thrown
unfolding resolve_retryable retryable_as new_run_error
local_error q none (run_error e) = run_error e
local_error q (some as_default) (run_error e) = run_error e
local_error q (some always) (run_error e) = run_error (retryable_as true e)
local_error q (some never) (run_error e) = run_error (retryable_as false e)
local_error q retryable (other_error m) = run_error (
    new_run_error q.query.ref (record {
      query_name = q.label;
      sql = none;
      code = query_execution_failed;
      retryable = some (resolve_retryable false retryable);
    }))

-- `withTimeout`: whichever settles first counts, the execution or the timer. The execution goes on
-- after a timeout, so what it does to the state is done in both cases.
unfoldable pub with_timeout :
    {S A : Type 0} → (clock : S → ℕ) → (ms : ℕ) → SqlRunError → Action S A → Action S A
with_timeout clock ms error m s =
    let r = m s in if ltb (clock s + ms) (clock r.1) then (threw (run_error error), r.1) else r

-- if (timeout) execution = withTimeout(…)
unfoldable pub timed :
    {S A : Type 0} → (clock : S → ℕ) → Source → (name : String) → Option ℕ → Action S A → Action S A
unfolding with_timeout new_run_error
timed clock q name none m = m
timed clock q name (some zero) m = m
timed clock q name (some (suc n)) m =
    with_timeout clock (suc n)
      (new_run_error q.query.ref
        (record { query_name = some name; sql = none; code = query_timeout; retryable = none }))
      m

module _ {S A D : Type 0} (clock : S → ℕ) (is_read : A → Bool) (deserialize : A → Bool → Action S A)
    (run_query : D → Mode → Action S A) (q : Source) (name : String) where
  -- `runLocal`
  unfoldable pub run_local : {E : Type 0} → D → RunOptions E S → Mode → Action S A
  unfolding timed local_error
  run_local db options mode =
      catch
        (do
          data_read ← timed clock q name options.timeout (run_query db mode)
          if is_read data_read then deserialize data_read false else pure data_read)
        (λ e. raise (local_error q options.retryable e))

-- The argument of `remoteExecute`.
pub record RemoteCall (P E S : Type 0) : Type 0 where
  pub plugin : String
  pub hash : String
  pub params : Fields P
  pub name : String
  pub location : Option String
  pub mode : Mode
  pub options : RunOptions E S

-- The parameters that are not context values.
unfoldable pub without_context : {P : Type 0} → Fields P → Fields P
without_context end = end
without_context (field k v fs) =
    let rest = without_context fs in if is_context v then rest else field k v rest

-- The callbacks of a policy serve with and without an execution: this is the policy as the
-- pipeline uses it.
abbrev callback_for : {E B : Type 0} → Option (RetryArgs (Option E) → B) → Option (RetryArgs E → B)
callback_for none = none
callback_for (some f) = some (λ r. f (record {
  error = r.error;
  attempt = r.attempt;
  max_attempts = r.max_attempts;
  execution = some r.execution;
}))

abbrev for_pipeline :
    {E S : Type 0}
    → Option (Option (RetryOptions (Option E) S))
    → Option (Option (RetryOptions E S))
for_pipeline none = none
for_pipeline (some none) = some none
for_pipeline (some (some o)) = some (
    some (record {
      max_attempts = o.max_attempts;
      should_retry = callback_for o.should_retry;
      delay_ms = callback_for o.delay_ms;
    }))

-- What `db` is: a remote client, a connection of this library, or a client of the database.
pub data Connection (P C W A D : Type 0) : Type 0 where
  remote :
      (RemoteCall P (ExecutionArgs (Fields P) C) (Shared W) → Action (Shared W) A)
      → Connection P C W A D
  connected : D → Option (Pipeline (Fields P) C W) → Connection P C W A D
  client : D → Connection P C W A D

module _ {P C W A D : Type 0} (clock : Shared W → ℕ) (sleep : ℕ → Action (Shared W) Unit)
    (plugin : String) (is_read : A → Bool) (deserialize : A → Bool → Action (Shared W) A)
    (serialize : A → Action (Shared W) A) (run_query : D → Mode → Action (Shared W) A) (q : Source)
    (name : String) (context_of : Fields P → C) where
  -- runWithRetry(args.options?.retry, undefined, () => this.runLocal(…))
  unfoldable pub run_repeated :
      D → RunOptions (ExecutionArgs (Fields P) C) (Shared W) → Mode → Action (Shared W) A
  unfolding run_with_retry run_local
  run_repeated db options mode =
      run_with_retry sleep (or_else options.retry none) none
        (λ attempt. run_local clock is_read deserialize run_query q name db options mode)

  -- The rest of `run`, by the connection.
  unfoldable pub send :
      Connection P C W A D
      → Fields P
      → RunOptions (ExecutionArgs (Fields P) C) (Shared W)
      → Mode
      → Action (Shared W) A
  unfolding run_repeated execute without_context
  send (remote call) params options mode = do
    data_read ← call (record {
      plugin = plugin;
      hash = q.hash;
      params = without_context params;
      name = name;
      location = q.query.ref.location;
      mode = mode;
      options = options;
    })
    if is_read data_read then deserialize data_read true else pure data_read
  send (connected db none) params options mode = run_repeated db options mode >>= serialize
  send (connected db (some p)) params options mode =
      let args : ExecutionArgs (Fields P) C = record {
        plugin = plugin;
        query = q.query;
        name = name;
        mode = mode;
        params = params;
        context = context_of params;
      } in
      execute clock sleep p args (λ attempt. run_repeated db options mode)
        (for_pipeline options.retry)
      >>= serialize
  send (client db) params options mode = run_repeated db options mode >>= serialize

  -- `run`; `validate` is `validateParams`.
  unfoldable pub run :
      (validate : Fields P → Action (Shared W) (Unit {0}))
      → Connection P C W A D
      → Fields P
      → RunOptions (ExecutionArgs (Fields P) C) (Shared W)
      → Mode
      → Action (Shared W) A
  unfolding send new_run_error
  run validate connection params options mode =
      if ltb 1 (length q.sources)
      then raise (
          run_error (
            new_run_error q.query.ref (record {
              query_name = none;
              sql = none;
              code = multi_source_query;
              retryable = none;
            })))
      else (do validate params; send connection params options mode)
