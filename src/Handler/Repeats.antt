-- ===== src/Handler/Repeats.antt =====
-- How often the handler runs a query that fails, where a retry policy meets a pipeline.
use vexnor.Base.{◌≡◌, ℕ, ◌+◌, true, none, some}
use vexnor.Errors.{run_error, threw, Action, SqlRunError}
use vexnor.Pipeline.{Shared, RetryOptions, Options}
use vexnor.Pipeline.Retry.{should_retry}
use vexnor.Handler.{RunOptions}

-- `{ maxAttempts: n }`
abbrev pub up_to : {E S : Type 0} → ℕ → RetryOptions E S
up_to n = record { max_attempts = some n; should_retry = none; delay_ms = none }

-- The action throws a retryable error and raises the count by `k`.
pub record Fails {S A : Type 0} (calls : S → ℕ) (k : ℕ) (m : Action S A) : Type 0 where
  pub at :
      (s : S)
      → (e : SqlRunError) × ((m s).0 ≡ threw (run_error e))
        × (e.retryable ≡ true)
        × (calls (m s).1 ≡ calls s + k)

abbrev pub tally : {W : Type 0} → (W → ℕ) → Shared W → ℕ
tally count s = count s.world

-- The options of a run that asks for up to `n` attempts.
abbrev pub retrying : {E S : Type 0} → ℕ → RunOptions E S
retrying n = record { timeout = none; retryable = none; retry = some (some (up_to n)) }

-- Pipeline options without a limit.
abbrev pub unlimited : {P C W : Type 0} → Options P C W
unlimited = record { max_concurrent = none; retry = none; on_plugin_error = none }
