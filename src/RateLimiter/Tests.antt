-- ===== src/RateLimiter/Tests.antt =====
-- A concrete history of a limiter on which the theorems are applied.
use vexnor.Base.{ℕ, ◌+◌, ◌-◌, ◌≡◌, ◌↔◌, ◌⊎◌, refl, String, none, some, List, [], ◌∷◌, true, arith}
use vexnor.Base.Dict.{lookup}
use vexnor.Errors.{run_error, query_rate_limited}
use vexnor.Pipeline.{ExecutionArgs, read}
use vexnor.Pipeline.Run.{failure}
use vexnor.Pipeline.Interleave.{Fits}
use vexnor.RateLimiter.{
  Duration, LimiterOptions, Limiter, new_limiter, check, query_entry, context_entry,
}
use vexnor.RateLimiter.Metrics.{Event, starts, checks, ends, clears, run, run_query, lookup-run}
use vexnor.RateLimiter.Counts.{in_flight_of, total_calls_of, total_errors_of, counts-run}
use vexnor.RateLimiter.Sweep.{check_lem, context_in_flight_of}
use vexnor.Errors.{other_error, Action, raise, pure}
use vexnor.Pipeline.{Shared, Options}
use vexnor.Pipeline.Run.{execute}
use vexnor.Pipeline.Phases.{no_retry}
use vexnor.RateLimiter.Attached.{limited, Count, execute-Count}
use vexnor.RateLimiter.Sound.{run-new_limiter-IsSound}

-- Durations that keep the last sample.
abbrev last : Duration ℕ
last = record { nought = 0; plus = λ a b. a + b; minus = λ a b. a - b; over = λ a n. a }

abbrev ping : ExecutionArgs Unit String
ping = record {
  plugin = "pg";
  query = record { ref = record { id = "q1"; location = none }; authorization = [] };
  name = "ping";
  mode = read;
  params = tt;
  context = "tenant";
}

abbrev per_tenant : LimiterOptions Unit String ℕ
per_tenant = record {
  context_key_resolver = some (λ c. c);
  context_metrics_ttl_ms = some 100;
  max_concurrent = some 1;
  max_concurrent_per_context = some 1;
  limit = none;
}

abbrev history : List (Event Unit String ℕ)
history = starts 1 ping ∷ checks 2 ping ∷ starts 3 ping ∷ ends 4 ping true 5 ∷ clears none ∷ []

counts-run_example :
    (in_flight_of (lookup "q1" (run last per_tenant history new_limiter).query_metrics) + 1 ≡ 2)
    × (total_calls_of (lookup "q1" (run last per_tenant history new_limiter).query_metrics) ≡ 2)
    × (total_errors_of (lookup "q1" (run last per_tenant history new_limiter).query_metrics) ≡ 1)
counts-run_example = counts-run last per_tenant "q1" history (λ h. omega arith, tt)

lookup-run_example :
    lookup "q1" (run last per_tenant history new_limiter).query_metrics
    ≡ run_query last per_tenant "q1" history (lookup "q1" new_limiter.query_metrics)
lookup-run_example = lookup-run last per_tenant "q1" history new_limiter

abbrev busy : Limiter ℕ
busy = run last per_tenant (starts 1 ping ∷ starts 2 ping ∷ []) new_limiter

check_lem_example :
    (((check per_tenant ping 3 busy).1 ≡ none) ↔ (
      Fits (some 1) (in_flight_of (query_entry per_tenant ping busy))
      × Fits (some 1) (context_in_flight_of (context_entry per_tenant ping busy))))
    × (((check per_tenant ping 3 busy).1 ≡ none)
        ⊎ ((check per_tenant ping 3 busy).1
            ≡ some (run_error (failure ping.query ping.name query_rate_limited))))
check_lem_example =
    check_lem per_tenant ping 3 busy
      (run-new_limiter-IsSound last per_tenant (starts 1 ping ∷ starts 2 ping ∷ [])) refl

abbrev plain : Options Unit String (Limiter ℕ)
plain = record { max_concurrent = none; retry = none; on_plugin_error = none }

abbrev at_rest : Shared (Limiter ℕ)
at_rest = record { in_flight = 0; world = new_limiter }

abbrev broken : ℕ → Action (Shared (Limiter ℕ)) ℕ
broken n = raise (other_error "connection lost")

abbrev no_sleep : ℕ → Action (Shared (Limiter ℕ)) Unit
no_sleep n = pure tt

execute-Count_example :
    Count last per_tenant
      (λ s. 5)
      (λ n. n)
      "q1"
      0
      1
      (execute
        (λ s. 5)
        no_sleep
        (limited last per_tenant (λ s. 5) (λ n. n) plain 3)
        ping
        broken
        none
        at_rest).1
unfolding new_limiter lookup pure raise
execute-Count_example =
    execute-Count last per_tenant (λ s. 5) (λ n. n) plain 3 (λ s. 5) no_sleep ping broken none 0 0
      at_rest (λ j. record { at = λ s h. h }) no_retry (λ j. record { at = λ s h. h }) (refl, refl)
