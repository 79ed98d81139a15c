-- ===== src/Pipeline/Retry.antt =====
-- core/query/sql-retry.ts: `runWithRetry`, with the pause between two attempts as a parameter.
use vexnor.Base.{ℕ, zero, suc, ◌+◌, ◌-◌, Bool, false, Option, none, some, if◌then◌else◌, ltb}
use vexnor.Errors.{
  Thrown, run_error, other_error, Action, ◌>>=◌, ◌>>◌, pure, raise, catch, call_or, or_else,
}
use vexnor.Pipeline.{RetryArgs, RetryOptions}

abbrev pub at_least_one : ℕ → ℕ
at_least_one zero = 1
at_least_one (suc n) = suc n

-- `error instanceof SqlRunError && error.retryable`
unfoldable pub is_retryable : Thrown → Bool
is_retryable (run_error e) = e.retryable
is_retryable (other_error m) = false

module _ {E S : Type 0} (sleep : ℕ → Action S Unit) where
  unfoldable pub should_retry : RetryOptions E S → RetryArgs E → Action S Bool
  unfolding is_retryable
  should_retry o args = call_or o.should_retry (pure (is_retryable args.error)) args

  unfoldable pub pause : RetryOptions E S → RetryArgs E → Action S Unit
  pause o args = do
    delay ← call_or o.delay_ms (pure 0) args
    if ltb 0 delay then sleep delay else pure tt

  -- The `catch` of an attempt that is not the last.
  unfoldable pub retry_after :
      {A : Type 0}
      → RetryOptions E S
      → (max_attempts attempt : ℕ) → E
      → Action S A
      → Thrown
      → Action S A
  unfolding should_retry pause
  retry_after o max_attempts attempt execution next e =
      let args : RetryArgs E = record {
        error = e;
        attempt = attempt;
        max_attempts = max_attempts;
        execution = execution;
      } in
      do again ← should_retry o args; if again then (do pause o args; next) else raise e

  -- The loop from an attempt on, with the number of attempts that may follow it.
  unfoldable pub attempts :
      {A : Type 0} → RetryOptions E S → E → (ℕ → Action S A) → (left attempt : ℕ) → Action S A
  unfolding retry_after
  attempts o execution fn zero attempt s = fn attempt s
  attempts o execution fn (suc left) attempt s =
      let next = attempts o execution fn left (attempt + 1) in
      catch (fn attempt) (retry_after o (attempt + suc left) attempt execution next) s

  unfoldable pub run_with_retry :
      {A : Type 0} → Option (RetryOptions E S) → E → (ℕ → Action S A) → Action S A
  unfolding attempts
  run_with_retry none execution fn = fn 1
  run_with_retry (some o) execution fn =
      let max_attempts = at_least_one (or_else o.max_attempts 1) in
      attempts o execution fn (max_attempts - 1) 1
