-- ===== src/Pipeline/Phases.antt =====
-- The phases of `execute`, each with the condition under which it keeps an invariant.
use vexnor.Base.{String, ℕ, zero, suc, ◌+◌, Option, none, some, List, [], ◌∷◌, All, arith}
use vexnor.Errors.{Thrown, Action, pure, raise, or_else}
use vexnor.Pipeline.{ExecutionArgs, Shared, before, Plugin, RetryArgs, RetryOptions, Pipeline}
use vexnor.Pipeline.Retry.{should_retry, pause, retry_after, attempts, run_with_retry}
use vexnor.Pipeline.Run.{
  run_hooks, authorize_with, run_authorize, run_check_plugins, check_max_concurrent, dispatch,
  enter, leave, attempt_once, execute_body,
}
use vexnor.Errors.Keeps.{
  Keeps, KeepsCall, Keeps-catch, Keeps-raise, Keeps-pure, Keeps-call_or, Keeps-then, keeps_rules,
}

-- The callbacks of a retry policy keep `I`.
pub record CalmRetry {S E : Type 0} (I : S → Type 0) (o : RetryOptions E S) : Type 0 where
  pub asks : KeepsCall I o.should_retry
  pub delays : KeepsCall I o.delay_ms

pub data CalmPolicy {S E : Type 0} (I : S → Type 0) : Option (RetryOptions E S) → Type 0 where
  no_retry : CalmPolicy I none
  policy : {o : RetryOptions E S} → CalmRetry I o → CalmPolicy I (some o)

module _ {S E : Type 0} {I : S → Type 0} (sleep : ℕ → Action S Unit)
    (slept : (n : ℕ) → Keeps I (sleep n)) (o : RetryOptions E S) (calm : CalmRetry I o) where
  pub Keeps-pause : (args : RetryArgs E) → Keeps I (pause sleep o args)
  unfolding pause
  Keeps-pause args = search (keeps_rules, slept, calm.delays)

  Keeps-retry_after :
      {A : Type 0} (max_attempts attempt : ℕ) (execution : E) (next : Action S A) (e : Thrown)
      → Keeps I next
      → Keeps I (retry_after sleep o max_attempts attempt execution next e)
  unfolding retry_after should_retry
  Keeps-retry_after max_attempts attempt execution next e kn =
      search (keeps_rules, Keeps-pause, calm.asks)

  Keeps-attempts :
      {A : Type 0} (execution : E) (fn : ℕ → Action S A) (left attempt : ℕ)
      → ((n : ℕ) → Keeps I (fn n))
      → Keeps I (attempts sleep o execution fn left attempt)
  unfolding attempts
  Keeps-attempts execution fn zero attempt kf = record { at = (kf attempt).at }
  Keeps-attempts execution fn (suc left) attempt kf = record {
    at =
        (Keeps-catch (fn attempt) _ (kf attempt) (λ e.
          Keeps-retry_after _ attempt execution _ e
            (Keeps-attempts execution fn left (attempt + 1) kf))).at;
  }

pub Keeps-run_with_retry :
    {S E A : Type 0} {I : S → Type 0} (sleep : ℕ → Action S Unit)
    (retry : Option (RetryOptions E S)) (execution : E) (fn : ℕ → Action S A)
    → ((n : ℕ) → Keeps I (sleep n))
    → CalmPolicy I retry
    → ((n : ℕ) → Keeps I (fn n))
    → Keeps I (run_with_retry sleep retry execution fn)
unfolding run_with_retry
Keeps-run_with_retry sleep none execution fn slept calm kf = kf 1
Keeps-run_with_retry sleep (some o) execution fn slept (policy calm) kf =
    Keeps-attempts sleep slept o calm execution fn _ 1 kf

-- What a pipeline's callbacks do to an invariant while one execution runs: `O` holds outside an
-- attempt and `N` within one, where the counter is one higher.
pub record Calm {P C W A : Type 0} (O N : Shared W → Type 0) (sleep : ℕ → Action (Shared W) Unit)
    (p : Pipeline P C W) (args : ExecutionArgs P C) (execute_query : ℕ → Action (Shared W) A)
    (retry : Option (Option (RetryOptions (ExecutionArgs P C) (Shared W)))) : Type 0 where
  pub authorizes : All (λ hook. Keeps O (hook args)) p.authorize_hooks
  pub checks : All (λ (q : Plugin P C W). KeepsCall O q.check_hook) p.check_plugins
  pub befores : Keeps N (dispatch p (before args) p.before_listeners)
  pub queries : (n : ℕ) → Keeps N (execute_query n)
  pub retries : CalmPolicy O (or_else retry p.options.retry)
  pub sleeps : (n : ℕ) → Keeps O (sleep n)
  pub enters : (s : Shared W) → O s → N (enter s)
  pub leaves : (s : Shared W) → N s → O (leave s)

module _ {P C W : Type 0} {I : Shared W → Type 0} (args : ExecutionArgs P C) where
  Keeps-run_hooks :
      (hooks : List (ExecutionArgs P C → Action (Shared W) Unit))
      → All (λ hook. Keeps I (hook args)) hooks
      → Keeps I (run_hooks hooks args)
  unfolding run_hooks
  Keeps-run_hooks [] k = search keeps_rules
  Keeps-run_hooks (hook ∷ hooks) k =
      Keeps-then _ _ (Keeps-catch (hook args) _ k.0 (λ e. Keeps-raise _))
        (Keeps-run_hooks hooks k.1)

  Keeps-run_authorize :
      (p : Pipeline P C W)
      → All (λ hook. Keeps I (hook args)) p.authorize_hooks
      → Keeps I (run_authorize p args)
  unfolding run_authorize
  Keeps-run_authorize p k = go args.query.authorization p.authorize_hooks k
    where
      go :
          (tags : List String) (hooks : List (ExecutionArgs P C → Action (Shared W) Unit))
          → All (λ hook. Keeps I (hook args)) hooks
          → Keeps I (authorize_with tags hooks args)
      go [] hooks k = search keeps_rules
      go (tag ∷ tags) [] k = search keeps_rules
      go (tag ∷ tags) (hook ∷ hooks) k = Keeps-run_hooks (hook ∷ hooks) k

  Keeps-run_check_plugins :
      (plugins : List (Plugin P C W))
      → All (λ (q : Plugin P C W). KeepsCall I q.check_hook) plugins
      → Keeps I (run_check_plugins plugins args)
  unfolding run_check_plugins
  Keeps-run_check_plugins [] k = search keeps_rules
  Keeps-run_check_plugins (q ∷ qs) k =
      Keeps-then _ _
        (Keeps-catch _ _ (Keeps-call_or q.check_hook (pure tt) args k.0 (Keeps-pure tt))
          (λ e. Keeps-raise _))
        (Keeps-run_check_plugins qs k.1)

module _ {P C W A : Type 0} {O N : Shared W → Type 0} {sleep : ℕ → Action (Shared W) Unit}
    {p : Pipeline P C W} {args : ExecutionArgs P C} {execute_query : ℕ → Action (Shared W) A}
    {retry : Option (Option (RetryOptions (ExecutionArgs P C) (Shared W)))}
    (calm : Calm O N sleep p args execute_query retry) where
  Keeps-check_max_concurrent : Keeps O (check_max_concurrent p args.name args.query)
  unfolding check_max_concurrent pure raise
  Keeps-check_max_concurrent = record { at = λ s h. ground arith }

  Keeps-attempt_once : (n : ℕ) → Keeps O (attempt_once p args execute_query n)
  unfolding attempt_once
  Keeps-attempt_once n = Keeps-then _ _ Keeps-check_max_concurrent (record {
    at = λ s h.
        calm.leaves _
          ((Keeps-then _ _ calm.befores (calm.queries n)).at (enter s) (calm.enters s h));
  })

  pub Keeps-execute_body : Keeps O (execute_body sleep p args execute_query retry)
  unfolding execute_body
  Keeps-execute_body = Keeps-then _ _ (Keeps-run_authorize args p calm.authorizes) (
      Keeps-then _ _ (Keeps-run_check_plugins args p.check_plugins calm.checks)
        (Keeps-run_with_retry sleep _ args _ calm.sleeps calm.retries Keeps-attempt_once))
