-- ===== src/Pipeline/Run.antt =====
-- execution/sql-query-pipeline.ts: the phases of one execution, `execute` and its helpers.
use vexnor.Base.{
  ℕ, ◌+◌, ◌-◌, leb, String, Bool, false, Option, none, some, List, [], ◌∷◌, if◌then◌else◌,
}
use vexnor.Errors.{
  Thrown, run_error, other_error, Outcome, returned, threw, Action, ◌>>◌, pure, raise, catch,
  call_or, new_run_error, with_options, query_not_authorized, query_rate_limited,
  query_execution_failed, SqlErrorCode, SqlRunError, or_else,
}
use vexnor.Pipeline.{
  Query, ExecutionArgs, EndArgs, Shared, Phase, init, before, end, Plugin, Listener, RetryOptions,
  Pipeline,
}
use vexnor.Pipeline.Retry.{run_with_retry}

-- `new SqlRunError(message, query, { code, queryName: name })`
unfoldable pub failure : Query → String → SqlErrorCode → SqlRunError
unfolding new_run_error
failure q name code =
    new_run_error q.ref
      (record { query_name = some name; sql = none; code = code; retryable = none })

-- `if (err instanceof SqlRunError) throw err; throw new SqlRunError(…)`
unfoldable pub wrap : Query → String → SqlErrorCode → Thrown → Thrown
unfolding failure
wrap q name code (run_error e) = run_error e
wrap q name code (other_error m) = run_error (failure q name code)

abbrev pub enter : {W : Type 0} → Shared W → Shared W
enter s = record s { in_flight = s.in_flight + 1 }

abbrev pub leave : {W : Type 0} → Shared W → Shared W
leave s = record s { in_flight = s.in_flight - 1 }

-- try { m } finally { this.inFlight-- }
abbrev pub finally_leave : {A W : Type 0} → Action (Shared W) A → Action (Shared W) A
finally_leave m s = let r = m s in (r.0, leave r.1)

-- The error that `execute` throws for an error of its body.
unfoldable pub rethrow : {P C : Type 0} → ExecutionArgs P C → Thrown → Thrown
unfolding with_options failure
rethrow args (run_error e) = run_error (
    with_options e
      (record { query_name = some args.name; sql = none; code = none; retryable = none }))
rethrow args (other_error m) = run_error (failure args.query args.name query_execution_failed)

abbrev pub rethrow_outcome : {A P C : Type 0} → ExecutionArgs P C → Outcome A → Outcome A
rethrow_outcome args (returned a) = returned a
rethrow_outcome args (threw e) = threw (rethrow args e)

abbrev pub error_of : {A : Type 0} → Outcome A → Option Thrown
error_of (returned a) = none
error_of (threw e) = some e

-- `maxConcurrent !== undefined && this.inFlight >= maxConcurrent`
abbrev pub reached : Option ℕ → ℕ → Bool
reached none n = false
reached (some limit) n = leb limit n

module _ {P C W : Type 0} where
  -- `runAuthorize`
  unfoldable pub run_hooks :
      List (ExecutionArgs P C → Action (Shared W) Unit) → ExecutionArgs P C → Action (Shared W) Unit
  unfolding wrap
  run_hooks [] args = pure tt
  run_hooks (hook ∷ hooks) args = do
    catch (hook args) (λ e. raise (wrap args.query args.name query_not_authorized e))
    run_hooks hooks args

  unfoldable pub authorize_with :
      List String
      → List (ExecutionArgs P C → Action (Shared W) Unit)
      → ExecutionArgs P C
      → Action (Shared W) Unit
  unfolding run_hooks failure
  authorize_with [] hooks args = pure tt
  authorize_with (tag ∷ tags) [] args =
      raise (run_error (failure args.query args.name query_not_authorized))
  authorize_with (tag ∷ tags) (hook ∷ hooks) args = run_hooks (hook ∷ hooks) args

  unfoldable pub run_authorize : Pipeline P C W → ExecutionArgs P C → Action (Shared W) Unit
  unfolding authorize_with
  run_authorize p args = authorize_with args.query.authorization p.authorize_hooks args

  -- `runCheckPlugins`
  unfoldable pub run_check_plugins :
      List (Plugin P C W) → ExecutionArgs P C → Action (Shared W) Unit
  unfolding wrap
  run_check_plugins [] args = pure tt
  run_check_plugins (plugin ∷ plugins) args = do
    catch (call_or plugin.check_hook (pure tt) args)
        (λ e. raise (wrap args.query args.name query_rate_limited e))
    run_check_plugins plugins args

  -- `checkMaxConcurrent`
  unfoldable pub check_max_concurrent : Pipeline P C W → String → Query → Action (Shared W) Unit
  unfolding failure
  check_max_concurrent p name q s =
      if reached p.options.max_concurrent s.in_flight
      then raise (run_error (failure q name query_rate_limited)) s
      else pure tt s

  -- `handlePluginError`; the warning that a throwing handler causes is not modelled.
  unfoldable pub handle_plugin_error :
      Pipeline P C W → Thrown → Plugin P C W → Phase P C → Action (Shared W) Unit
  handle_plugin_error p e plugin phase =
      catch
        (elim plugin.on_error [
          | some on_error ↦ on_error e phase
          | none ↦ elim p.options.on_plugin_error [
            | some on_plugin_error ↦ on_plugin_error e plugin phase
            | none ↦ pure tt
          ]
        ])
        (λ _. pure tt)

  -- `invokePluginListener`
  unfoldable pub invoke_plugin_listener :
      Pipeline P C W → Plugin P C W → Phase P C → Action (Shared W) Unit → Action (Shared W) Unit
  unfolding handle_plugin_error
  invoke_plugin_listener p plugin phase fn = catch fn (λ e. handle_plugin_error p e plugin phase)

  -- The body of a listener for one phase: the hook of its plugin.
  unfoldable pub fire : Pipeline P C W → Phase P C → Plugin P C W → Action (Shared W) Unit
  unfolding invoke_plugin_listener
  fire p (init args) plugin =
      invoke_plugin_listener p plugin (init args) (call_or plugin.init_hook (pure tt) args)
  fire p (before args) plugin =
      invoke_plugin_listener p plugin (before args) (call_or plugin.before_hook (pure tt) args)
  fire p (end args) plugin =
      invoke_plugin_listener p plugin (end args) (call_or plugin.end_hook (pure tt) args)

  -- `dispatchEvent`: the listeners in the order of registration.
  unfoldable pub dispatch :
      Pipeline P C W → Phase P C → List (Listener P C W) → Action (Shared W) Unit
  unfolding fire
  dispatch p phase [] = pure tt
  dispatch p phase (l ∷ ls) = do fire p phase l.plugin; dispatch p phase ls

  -- The function that `execute` gives to `runWithRetry`.
  unfoldable pub attempt_once :
      {A : Type 0}
      → Pipeline P C W
      → ExecutionArgs P C
      → (ℕ → Action (Shared W) A)
      → ℕ
      → Action (Shared W) A
  unfolding check_max_concurrent dispatch
  attempt_once p args execute_query attempt = do
    check_max_concurrent p args.name args.query
    λ s.
        finally_leave (do dispatch p (before args) p.before_listeners; execute_query attempt)
          (enter s)

  -- The body of the `try` of `execute`.
  unfoldable pub execute_body :
      {A : Type 0}
      → (sleep : ℕ → Action (Shared W) Unit) → Pipeline P C W
      → ExecutionArgs P C
      → (ℕ → Action (Shared W) A)
      → Option (Option (RetryOptions (ExecutionArgs P C) (Shared W)))
      → Action (Shared W) A
  unfolding run_authorize run_check_plugins run_with_retry attempt_once
  execute_body sleep p args execute_query retry = do
    run_authorize p args
    run_check_plugins p.check_plugins args
    run_with_retry sleep (or_else retry p.options.retry) args (attempt_once p args execute_query)

  -- The `catch` and the `finally` of `execute`, after its body.
  unfoldable pub finish :
      {A : Type 0}
      → (clock : Shared W → ℕ) → (start : ℕ) → Pipeline P C W
      → ExecutionArgs P C
      → Outcome A × Shared W
      → Outcome A × Shared W
  unfolding dispatch rethrow
  finish {A} clock start p args (o, t) =
      let end_args : EndArgs P C = record {
        args = args;
        duration_ms = clock t - start;
        error = error_of o;
      } in
      (do dispatch p (end end_args) p.end_listeners; λ u. (rethrow_outcome args o, u)) t

  -- `execute`. `clock` is `performance.now()`; `retry` is `options?.retry`.
  unfoldable pub execute :
      {A : Type 0}
      → (clock : Shared W → ℕ) → (sleep : ℕ → Action (Shared W) Unit) → Pipeline P C W
      → ExecutionArgs P C
      → (ℕ → Action (Shared W) A)
      → Option (Option (RetryOptions (ExecutionArgs P C) (Shared W)))
      → Action (Shared W) A
  unfolding dispatch execute_body finish
  execute clock sleep p args execute_query retry s =
      (do
        dispatch p (init args) p.init_listeners
        λ t. finish clock (clock s) p args (execute_body sleep p args execute_query retry t))
        s
