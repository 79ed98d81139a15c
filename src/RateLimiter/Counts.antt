-- ===== src/RateLimiter/Counts.antt =====
-- The counts of a query over a history: exact in-flight, call and error counts.
use vexnor.Base.{
  ℕ, ◌+◌, ◌≡◌, refl, String, Option, none, some, List, [], ◌∷◌, arith, ◌==◌, Bool-cases, inl, inr,
}
use vexnor.Base.Dict.{lookup}
use vexnor.RateLimiter.{Duration, QueryMetrics, LimiterOptions, ended, new_limiter, started, fresh}
use vexnor.RateLimiter.Metrics.{
  Event, starts, checks, ends, clears, run, run_query, lookup-run, starts_of, ends_of, failures_of,
  Paired,
}

-- The counts of an entry; a query that was never seen has none.
abbrev pub in_flight_of : {D : Type 0} → Option (QueryMetrics D) → ℕ
in_flight_of none = 0
in_flight_of (some m) = m.in_flight

abbrev pub total_calls_of : {D : Type 0} → Option (QueryMetrics D) → ℕ
total_calls_of none = 0
total_calls_of (some m) = m.total_calls

abbrev pub total_errors_of : {D : Type 0} → Option (QueryMetrics D) → ℕ
total_errors_of none = 0
total_errors_of (some m) = m.total_errors

module _ {P C D : Type 0} (d : Duration D) (o : LimiterOptions P C D) (k : String) where
  counts-run_query :
      (es : List (Event P C D)) (m : Option (QueryMetrics D))
      → Paired d o k (in_flight_of m) es
      → let n = run_query d o k es m in
        (in_flight_of n + ends_of d o k es ≡ in_flight_of m + starts_of d o k es)
        × (total_calls_of n ≡ total_calls_of m + starts_of d o k es)
        × (total_errors_of n ≡ total_errors_of m + failures_of d o k es)
  unfolding ended
  counts-run_query [] m h = (refl, omega arith, omega arith)
  counts-run_query (starts now args ∷ es) none h = elim (Bool-cases (args.query.ref.id == k)) [
    | inl e ↦ rw e (omega (arith, counts-run_query es (some (started d (fresh d))) (rw e at h)))
    | inr e ↦ rw e (counts-run_query es none (rw e at h))
  ]
  counts-run_query (starts now args ∷ es) (some m) h = elim (Bool-cases (args.query.ref.id == k)) [
    | inl e ↦ rw e (omega (arith, counts-run_query es (some (started d m)) (rw e at h)))
    | inr e ↦ rw e (counts-run_query es (some m) (rw e at h))
  ]
  counts-run_query (checks now args ∷ es) m h = counts-run_query es m h
  counts-run_query (ends now args failed t ∷ es) none h =
      elim (Bool-cases (args.query.ref.id == k)) [
        | inl e ↦ absurd (omega (arith, h.0 e))
        | inr e ↦ rw e (counts-run_query es none (rw e at h.1))
      ]
  counts-run_query (ends now args failed t ∷ es) (some m) h =
      elim (Bool-cases (args.query.ref.id == k)) [
        | inl e ↦
            rw e
              (ground (arith, h.0 e, counts-run_query es (some (ended d failed t m)) (rw e at h.1)))
        | inr e ↦ rw e (counts-run_query es (some m) (rw e at h.1))
      ]
  counts-run_query (clears key ∷ es) m h = counts-run_query es m h

-- For a new limiter and any history in which each end pairs with a start before it, whatever the
-- other queries, the checks and the clears in between: the starts of a query are its ends and the
-- executions in flight, its total is its starts, and its errors are the ends that failed.
pub counts-run :
    {P C D : Type 0} (d : Duration D) (o : LimiterOptions P C D) (k : String)
    (es : List (Event P C D))
    → Paired d o k 0 es
    → let m = lookup k (run d o es new_limiter).query_metrics in
      (in_flight_of m + ends_of d o k es ≡ starts_of d o k es)
      × (total_calls_of m ≡ starts_of d o k es)
      × (total_errors_of m ≡ failures_of d o k es)
unfolding new_limiter lookup
counts-run d o k es h =
    rw (lookup-run d o k es new_limiter) (omega (arith, counts-run_query d o k es none h))
