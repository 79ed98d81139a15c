-- ===== src/RateLimiter/Metrics.antt =====
-- The counts per query: what `init`, `check` and `end` make of them, over any history.
use vexnor.Base.{
  ℕ, suc, ◌+◌, ◌-◌, ◌<◌, ◌≡◌, refl, ap, ◌∙◌, String, Bool, true, Option, none, some, List, [], ◌∷◌,
  if◌then◌else◌, arith, eq_iff, ◌==◌,
}
use vexnor.Base.Dict.{Dict, lookup, insert, lookup-insert}
use vexnor.Errors.{or_else}
use vexnor.Pipeline.{ExecutionArgs}
use vexnor.RateLimiter.{
  Duration, QueryMetrics, ContextMetrics, LimiterOptions, Limiter, fresh, started, ended, init, end,
  check, init_context, end_context, end_with, clear_context_metrics,
}

-- One event at the limiter, with the clock at which it happens.
pub data Event (P C D : Type 0) : Type 0 where
  starts checks : ℕ → ExecutionArgs P C → Event P C D
  ends : ℕ → ExecutionArgs P C → Bool → D → Event P C D
  clears : Option String → Event P C D

module _ {P C D : Type 0} (d : Duration D) (o : LimiterOptions P C D) where
  abbrev pub step : Event P C D → Limiter D → Limiter D
  step (starts now args) l = init d o now args l
  step (checks now args) l = (check o args now l).0
  step (ends now args failed duration) l = end d o now args failed duration l
  step (clears key) l = clear_context_metrics key l

  unfoldable pub run : List (Event P C D) → Limiter D → Limiter D
  run [] l = l
  run (e ∷ es) l = run es (step e l)

  abbrev pub ended_at :
      (key k : String) → Bool → D → Option (QueryMetrics D) → Option (QueryMetrics D)
  ended_at key k failed t none = none
  ended_at key k failed t (some m) = if key == k then some (ended d failed t m) else some m

  -- The effect of an event on the metrics of the query `k` alone.
  abbrev pub step_query : String → Event P C D → Option (QueryMetrics D) → Option (QueryMetrics D)
  step_query k (starts now args) m =
      if args.query.ref.id == k then some (started d (or_else m (fresh d))) else m
  step_query k (ends now args failed duration) m = ended_at args.query.ref.id k failed duration m
  step_query k (checks now args) m = m
  step_query k (clears key) m = m

  query-init_context :
      (now : ℕ) (key : String) (ck : Option String) (l : Limiter D)
      → (init_context d now key ck l).query_metrics ≡ l.query_metrics
  unfolding init_context
  query-init_context now key none l = refl
  query-init_context now key (some ck) l = refl

  query-end_context :
      (now : ℕ) (failed : Bool) (t : D) (key : String) (ck : Option String)
      (inner : Option (Dict (ContextMetrics D))) (l : Limiter D)
      → (end_context d now failed t key ck inner l).query_metrics ≡ l.query_metrics
  unfolding end_context
  query-end_context now failed t key none inner l = refl
  query-end_context now failed t key (some ck) none l = refl
  query-end_context now failed t key (some ck) (some inner) l = refl

  lookup-started :
      (key k : String) (q : Dict (QueryMetrics D))
      → lookup k (insert key (started d (or_else (lookup key q) (fresh d))) q)
        ≡ (if key == k then some (started d (or_else (lookup k q) (fresh d))) else lookup k q)
  lookup-started key k q = rw lookup-insert (ground (arith, eq_iff key k))

  lookup-end_with :
      (now : ℕ) (key k : String) (ck : Option String) (failed : Bool) (t : D)
      (entry found : Option (QueryMetrics D)) (l : Limiter D)
      → lookup key l.query_metrics ≡ entry
      → lookup k l.query_metrics ≡ found
      → lookup k (end_with d now key ck failed t entry l).query_metrics
        ≡ ended_at key k failed t found
  unfolding end_with
  lookup-end_with now key k ck failed t none none l e h = h
  lookup-end_with now key k ck failed t none (some m) l e h = ground (arith, eq_iff key k, e, h)
  lookup-end_with now key k ck failed t (some m) none l e h =
      rw query-end_context (rw lookup-insert (ground (arith, eq_iff key k, e, h)))
  lookup-end_with now key k ck failed t (some m) (some n) l e h =
      rw query-end_context (rw lookup-insert (ground (arith, eq_iff key k, e, h)))

  -- An event changes the metrics of its own query and of no other.
  pub lookup-step :
      (k : String) (e : Event P C D) (l : Limiter D)
      → lookup k (step e l).query_metrics ≡ step_query k e (lookup k l.query_metrics)
  lookup-step k (starts now args) l =
      unfold init in rw query-init_context (lookup-started args.query.ref.id k l.query_metrics)
  lookup-step k (checks now args) l = unfold check in refl
  lookup-step k (ends now args failed t) l =
      unfold end in lookup-end_with now _ k _ failed t _ _ l refl refl
  lookup-step k (clears none) l = unfold clear_context_metrics in refl
  lookup-step k (clears (some key)) l = unfold clear_context_metrics in refl

  abbrev pub run_query :
      String → List (Event P C D) → Option (QueryMetrics D) → Option (QueryMetrics D)
  run_query k [] m = m
  run_query k (e ∷ es) m = run_query k es (step_query k e m)

  -- After any history, the metrics of a query are what its own events make of its own metrics:
  -- neither the events of other queries, nor checks, sweeps or clears of context metrics, show.
  pub lookup-run :
      (k : String) (es : List (Event P C D)) (l : Limiter D)
      → lookup k (run es l).query_metrics ≡ run_query k es (lookup k l.query_metrics)
  unfolding run
  lookup-run k [] l = refl
  lookup-run k (e ∷ es) l = lookup-run k es (step e l) ∙ ap (run_query k es) (lookup-step k e l)

  -- The starts and the ends of the query `k` in a history, and the ends that failed.
  abbrev pub starts_of : String → List (Event P C D) → ℕ
  starts_of k [] = 0
  starts_of k (starts now args ∷ es) =
      if args.query.ref.id == k then suc (starts_of k es) else starts_of k es
  starts_of k (e ∷ es) = starts_of k es

  abbrev pub ends_of : String → List (Event P C D) → ℕ
  ends_of k [] = 0
  ends_of k (ends now args failed t ∷ es) =
      if args.query.ref.id == k then suc (ends_of k es) else ends_of k es
  ends_of k (e ∷ es) = ends_of k es

  abbrev pub failures_of : String → List (Event P C D) → ℕ
  failures_of k [] = 0
  failures_of k (ends now args failed t ∷ es) =
      if args.query.ref.id == k
      then (if failed then suc (failures_of k es) else failures_of k es)
      else failures_of k es
  failures_of k (e ∷ es) = failures_of k es

  -- Each end of the query `k` follows a start that it pairs with, of which `pending` are open.
  abbrev pub Paired : String → ℕ → List (Event P C D) → Type 0
  Paired k pending [] = Unit
  Paired k pending (starts now args ∷ es) =
      Paired k (if args.query.ref.id == k then pending + 1 else pending) es
  Paired k pending (ends now args failed t ∷ es) =
      (args.query.ref.id == k ≡ true → 0 < pending)
      × Paired k (if args.query.ref.id == k then pending - 1 else pending) es
  Paired k pending (e ∷ es) = Paired k pending es
