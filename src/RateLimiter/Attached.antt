-- ===== src/RateLimiter/Attached.antt =====
-- The limiter of execution/time-to-live-rate-limiter.ts as a plugin of a pipeline: the class
-- implements `SqlQueryPipelinePlugin`, so its methods are the hooks.
use vexnor.Base.{ℕ, ◌+◌, ◌≡◌, String, Option, none, some, arith, eq_refl}
use vexnor.Base.Dict.{lookup}
use vexnor.Errors.{Thrown, Outcome, returned, threw, Action, ◌>>◌, pure, catch, call_or, or_else}
use vexnor.Pipeline.{
  ExecutionArgs, EndArgs, Shared, Plugin, RetryOptions, Options, Pipeline, new_pipeline, attach,
  is_some,
}
use vexnor.Pipeline.Run.{dispatch, fire, invoke_plugin_listener, execute}
use vexnor.Errors.Keeps.{Keeps, present}
use vexnor.Pipeline.Phases.{Calm, CalmPolicy}
use vexnor.Pipeline.Bracket.{execute-brackets}
use vexnor.RateLimiter.{
  Duration, QueryMetrics, LimiterOptions, Limiter, init, end, check, fresh, ended,
}
use vexnor.RateLimiter.Metrics.{starts, checks, ends, lookup-step, ended_at}
use vexnor.RateLimiter.Counts.{in_flight_of, total_calls_of}

-- What `check` throws or returns, as an outcome.
abbrev outcome_of : Option Thrown → Outcome {0} Unit
outcome_of none = returned tt
outcome_of (some e) = threw e

module _ {P C D : Type 0} (d : Duration D) (o : LimiterOptions P C D) (now : Shared (Limiter D) → ℕ)
    (ms : ℕ → D) where
  abbrev on_init : ExecutionArgs P C → Action (Shared (Limiter D)) Unit
  on_init args s = (returned tt, record s { world = init d o (now s) args s.world })

  abbrev on_check : ExecutionArgs P C → Action (Shared (Limiter D)) Unit
  on_check args s =
      let r = check o args (now s) s.world in (outcome_of r.1, record s { world = r.0 })

  abbrev on_end : EndArgs P C → Action (Shared (Limiter D)) Unit
  on_end e s = (
    returned tt,
    record s { world = end d o (now s) e.args (is_some e.error) (ms e.duration_ms) s.world },
  )

  unfoldable pub limiter_plugin : ℕ → Plugin P C (Limiter D)
  limiter_plugin identity = record {
    identity = identity;
    name = "TimeToLiveRateLimiter";
    init_hook = some on_init;
    check_hook = some on_check;
    before_hook = none;
    end_hook = some on_end;
    on_error = none;
  }

  unfoldable pub limited : Options P C (Limiter D) → ℕ → Pipeline P C (Limiter D)
  unfolding limiter_plugin new_pipeline attach
  limited options identity = (attach (new_pipeline options) (limiter_plugin identity)).0

  -- The query has `n` executions in flight and `c` calls so far.
  abbrev pub Count : String → ℕ → ℕ → Shared (Limiter D) → Type 0
  Count k n c s =
      (in_flight_of (lookup k s.world.query_metrics) ≡ n)
      × (total_calls_of (lookup k s.world.query_metrics) ≡ c)

  init-Count :
      (args : ExecutionArgs P C) (n c : ℕ) (s : Shared (Limiter D))
      → Count args.query.ref.id n c s
      → Count args.query.ref.id (n + 1) (c + 1) (on_init args s).1
  init-Count args n c s h =
      rw
        (lookup-step d o args.query.ref.id (starts (now s) args) s.world, eq_refl args.query.ref.id)
        (go (lookup args.query.ref.id s.world.query_metrics) h)
    where
      go :
          (m : Option (QueryMetrics D))
          → (in_flight_of m ≡ n) × (total_calls_of m ≡ c)
          → ((or_else m (fresh d)).in_flight + 1 ≡ n + 1)
            × ((or_else m (fresh d)).total_calls + 1 ≡ c + 1)
      go none h = (omega (arith, h.0), omega (arith, h.1))
      go (some m) h = (omega (arith, h.0), omega (arith, h.1))

  check-Count :
      (args : ExecutionArgs P C) (k : String) (n c : ℕ) → Keeps (Count k n c) (on_check args)
  check-Count args k n c = record {
    at = λ s h. rw (lookup-step d o k (checks (now s) args) s.world) h;
  }

  end-Count :
      (e : EndArgs P C) (n c : ℕ) (s : Shared (Limiter D))
      → Count e.args.query.ref.id (n + 1) c s
      → Count e.args.query.ref.id n c (on_end e s).1
  unfolding ended
  end-Count e n c s h =
      rw
        (lookup-step d o e.args.query.ref.id
          (ends (now s) e.args (is_some e.error) (ms e.duration_ms)) s.world)
        (go (lookup e.args.query.ref.id s.world.query_metrics) h)
    where
      go :
          (m : Option (QueryMetrics D))
          → (in_flight_of m ≡ n + 1) × (total_calls_of m ≡ c)
          → let r =
              ended_at d o e.args.query.ref.id e.args.query.ref.id
                (is_some e.error)
                (ms e.duration_ms)
                m in
            (in_flight_of r ≡ n) × (total_calls_of r ≡ c)
      go none h = absurd (omega (arith, h.0))
      go (some m) h = rw (eq_refl e.args.query.ref.id) (omega (arith, h.0), omega (arith, h.1))

  limited-Calm :
      {A : Type 0} (options : Options P C (Limiter D)) (identity : ℕ)
      (sleep : ℕ → Action (Shared (Limiter D)) Unit) (args : ExecutionArgs P C)
      (execute_query : ℕ → Action (Shared (Limiter D)) A)
      (retry : Option (Option (RetryOptions (ExecutionArgs P C) (Shared (Limiter D))))) (k : String)
      (n c : ℕ)
      → ((j : ℕ) → Keeps (Count k n c) (sleep j))
      → CalmPolicy (Count k n c) (or_else retry options.retry)
      → ((j : ℕ) → Keeps (Count k n c) (execute_query j))
      → Calm (Count k n c) (Count k n c) sleep (limited options identity) args execute_query retry
  unfolding limited limiter_plugin new_pipeline attach dispatch pure
  limited-Calm options identity sleep args execute_query retry k n c slept waits kept = record {
    authorizes = tt;
    checks = (present (λ a. check-Count a k n c), tt);
    befores = record { at = λ s h. h };
    queries = kept;
    retries = waits;
    sleeps = slept;
    enters = λ s h. h;
    leaves = λ s h. h;
  }

  -- A limiter that is attached to a pipeline never leaks: where the query function, the waits and
  -- the retry callbacks leave the query's counts alone, an execution ends with as many in flight as
  -- before it and one more call, also when it is refused or fails.
  pub execute-Count :
      {A : Type 0} (options : Options P C (Limiter D)) (identity : ℕ)
      (clock : Shared (Limiter D) → ℕ) (sleep : ℕ → Action (Shared (Limiter D)) Unit)
      (args : ExecutionArgs P C) (execute_query : ℕ → Action (Shared (Limiter D)) A)
      (retry : Option (Option (RetryOptions (ExecutionArgs P C) (Shared (Limiter D))))) (n c : ℕ)
      (s : Shared (Limiter D))
      → ((j : ℕ) → Keeps (Count args.query.ref.id (n + 1) (c + 1)) (sleep j))
      → CalmPolicy (Count args.query.ref.id (n + 1) (c + 1)) (or_else retry options.retry)
      → ((j : ℕ) → Keeps (Count args.query.ref.id (n + 1) (c + 1)) (execute_query j))
      → Count args.query.ref.id n c s
      → Count args.query.ref.id n
          (c + 1)
          (execute clock sleep (limited options identity) args execute_query retry s).1
  unfolding limited limiter_plugin new_pipeline attach dispatch fire invoke_plugin_listener catch
      ◌>>◌ call_or pure
  execute-Count options identity clock sleep args execute_query retry n c s slept waits kept h =
      execute-brackets (Count args.query.ref.id n c) (Count args.query.ref.id n (c + 1))
        (limited options identity) clock sleep args execute_query retry s
        (λ t g. init-Count args n c t g)
        (limited-Calm options identity sleep args execute_query retry args.query.ref.id (n + 1)
          (c + 1) slept waits kept)
        (λ duration error t g.
          end-Count (record { args = args; duration_ms = duration; error = error }) n (c + 1) t g)
        h
