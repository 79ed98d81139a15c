-- ===== src/RateLimiter/Sweep.antt =====
-- The lazy eviction of context metrics, and the verdict of `check`.
use vexnor.Base.{
  ℕ, ◌≡◌, ◌↔◌, ◌⊎◌, refl, ap, subst, ◌∙◌, String, Bool, true, false, Option, none, some, [], ◌∷◌,
  if◌then◌else◌, arith, eq_iff, ◌==◌, Bool-cases, inl, inr,
}
use mathlib.Core.Option
use vexnor.Base.Dict.{Dict, lookup, has_key, Distinct, lookup-has_key}
use vexnor.Errors.{Thrown, or_else, run_error, query_rate_limited}
use vexnor.Pipeline.{ExecutionArgs}
use vexnor.Pipeline.Run.{failure}
use vexnor.Pipeline.Interleave.{Fits}
use vexnor.RateLimiter.Counts.{in_flight_of}
use vexnor.RateLimiter.{
  QueryMetrics, ContextMetrics, LimiterOptions, Limiter, check, sweep, sweep_inner, map_inner,
  is_idle, context_of, verdict, call_limit, query_entry, context_entry, apply?, default_ttl,
  query_exceeded, context_exceeded,
}

-- What a sweep leaves of an entry.
abbrev pub spared :
    {D : Type 0} → (ttl now : ℕ) → Option (ContextMetrics D) → Option (ContextMetrics D)
spared ttl now none = none
spared ttl now (some m) = if is_idle ttl now m then none else some m

module _ {D : Type 0} (ttl now : ℕ) where
  has_key-sweep :
      (k : String) (inner : Dict (ContextMetrics D))
      → has_key k inner ≡ false
      → has_key k (sweep_inner ttl now inner) ≡ false
  unfolding sweep_inner
  has_key-sweep k [] h = refl
  has_key-sweep k ((j, m) ∷ inner) h = ground (arith, has_key-sweep k inner)

  pub Distinct-sweep :
      (inner : Dict (ContextMetrics D)) → Distinct inner → Distinct (sweep_inner ttl now inner)
  unfolding sweep_inner
  Distinct-sweep [] h = tt
  Distinct-sweep ((j, m) ∷ inner) h =
      ground (arith, has_key-sweep j inner h.0, Distinct-sweep inner h.1)

  lookup-sweep_inner :
      (k : String) (inner : Dict (ContextMetrics D))
      → Distinct inner
      → lookup k (sweep_inner ttl now inner) ≡ spared ttl now (lookup k inner)
  unfolding sweep_inner lookup
  lookup-sweep_inner k [] h = refl
  lookup-sweep_inner k ((j, m) ∷ inner) h = elim (Bool-cases (j == k)) [
    | inl e ↦ elim (Bool-cases (is_idle ttl now m)) [
      | inl i ↦
          rw (e, i)
            (lookup-sweep_inner k inner h.1
              ∙ ap (spared ttl now) (
                  lookup-has_key k inner
                    (subst (λ x. has_key x inner ≡ false) ((eq_iff j k).0 e) h.0)))
      | inr i ↦ simp (e, i)
    ]
    | inr e ↦ elim (Bool-cases (is_idle ttl now m)) [
      | inl i ↦ rw (i, e) (lookup-sweep_inner k inner h.1)
      | inr i ↦ simp (e, i) (lookup-sweep_inner k inner h.1)
    ]
  ]

pub lookup-map_inner :
    {V W : Type 0} (f : V → W) (k : String) (m : Dict V)
    → lookup k (map_inner f m) ≡ Option.map f (lookup k m)
unfolding lookup map_inner
lookup-map_inner f k [] = refl
lookup-map_inner f k ((j, v) ∷ m) = ground (arith, lookup-map_inner f k m)

-- The inner maps hold each context key once.
abbrev pub IsSound : {D : Type 0} → Limiter D → Type 0
IsSound {D} l =
    (k : String) (inner : Dict (ContextMetrics D))
    → lookup k l.context_metrics ≡ some inner
    → Distinct inner

module _ {D : Type 0} (ttl now : ℕ) where
  context_of-sweep :
      (ck : Option String) (inner : Option (Dict (ContextMetrics D)))
      → ((i : Dict (ContextMetrics D)) → inner ≡ some i → Distinct i)
      → context_of ck (Option.map (sweep_inner ttl now) inner)
        ≡ spared ttl now (context_of ck inner)
  context_of-sweep none inner h = refl
  context_of-sweep (some ck) none h = refl
  context_of-sweep (some ck) (some i) h = lookup-sweep_inner ttl now ck i (h i refl)

  -- An entry that a sweep removes has nothing in flight, so it is over no limit.
  exceeded-spared :
      (limit : Option ℕ) (m : Option (ContextMetrics D))
      → context_exceeded limit (spared ttl now m) ≡ context_exceeded limit m
  exceeded-spared none none = refl
  exceeded-spared none (some m) = ground arith
  exceeded-spared (some limit) none = refl
  exceeded-spared (some limit) (some m) = ground arith

abbrev pub context_in_flight_of : {D : Type 0} → Option (ContextMetrics D) → ℕ
context_in_flight_of none = 0
context_in_flight_of (some m) = m.in_flight

query_exceeded_iff :
    {D : Type 0} (limit : Option ℕ) (m : Option (QueryMetrics D))
    → (query_exceeded limit m ≡ false) ↔ Fits limit (in_flight_of m)
query_exceeded_iff none none = (λ h. tt, λ h. refl)
query_exceeded_iff none (some m) = (λ h. tt, λ h. refl)
query_exceeded_iff (some limit) none = (λ h. omega arith, λ h. refl)
query_exceeded_iff (some limit) (some m) = (λ h. ground arith, λ h. ground arith)

context_exceeded_iff :
    {D : Type 0} (limit : Option ℕ) (m : Option (ContextMetrics D))
    → (context_exceeded limit m ≡ false) ↔ Fits limit (context_in_flight_of m)
context_exceeded_iff none none = (λ h. tt, λ h. refl)
context_exceeded_iff none (some m) = (λ h. tt, λ h. refl)
context_exceeded_iff (some limit) none = (λ h. omega arith, λ h. refl)
context_exceeded_iff (some limit) (some m) = (λ h. ground arith, λ h. ground arith)

split :
    {A : Type 0} {e : A} {X Y : Type 0} (b c : Bool)
    → (b ≡ false) ↔ X
    → (c ≡ false) ↔ Y
    → let r = if b then some e else if c then some e else none in
      ((r ≡ none) ↔ (X × Y)) × ((r ≡ none) ⊎ (r ≡ some e))
split true c x y = ((λ h. cc, λ h. absurd (ground (arith, x.1 h.0))), inr refl)
split false true x y = ((λ h. cc, λ h. absurd (ground (arith, y.1 h.1))), inr refl)
split false false x y = ((λ h. (x.0 refl, y.0 refl), λ h. refl), inl refl)

module _ {P C D : Type 0} (o : LimiterOptions P C D) (args : ExecutionArgs P C) where
  abbrev pub ttl_of : ℕ
  ttl_of = or_else o.context_metrics_ttl_ms default_ttl

  -- A sweep removes the context's entry if it has nothing in flight and was last active before the
  -- time to live, and else leaves it as it was.
  pub context_entry-sweep :
      (now : ℕ) (l : Limiter D)
      → IsSound l
      → context_entry o args (sweep o now l) ≡ spared ttl_of now (context_entry o args l)
  unfolding sweep
  context_entry-sweep now l sound = rw lookup-map_inner (
      context_of-sweep ttl_of now (apply? o.context_key_resolver args.context) _
        (λ i e. sound args.query.ref.id i e))

  call_limit-none :
      (qm : Option (QueryMetrics D)) (cm : Option (ContextMetrics D))
      → o.limit ≡ none
      → call_limit o args qm cm ≡ none
  unfolding call_limit
  call_limit-none none cm h = refl
  call_limit-none (some qm) cm h = rw h

  abbrev refusal : Option Thrown
  refusal = some (run_error (failure args.query args.name query_rate_limited))

  thrown-check :
      (now : ℕ) (l : Limiter D)
      → IsSound l
      → o.limit ≡ none
      → (check o args now l).1 ≡ (
          if query_exceeded o.max_concurrent (query_entry o args l)
          then refusal
          else if context_exceeded o.max_concurrent_per_context (context_entry o args l)
          then refusal
          else none)
  thrown-check now l sound h =
      unfold check verdict in
      simp (context_entry-sweep now l sound, exceeded-spared, call_limit-none _ _ h)

  -- With no limit hook, a query passes `check` exactly where its executions in flight are within
  -- `maxConcurrent` and those of its context within `maxConcurrentPerContext`, by the metrics from
  -- before the sweep; else it is refused as rate limited, under its name.
  pub check_lem :
      (now : ℕ) (l : Limiter D)
      → IsSound l
      → o.limit ≡ none
      → (((check o args now l).1 ≡ none) ↔ (
          Fits o.max_concurrent (in_flight_of (query_entry o args l))
          × Fits o.max_concurrent_per_context (context_in_flight_of (context_entry o args l))))
        × (((check o args now l).1 ≡ none)
            ⊎ ((check o args now l).1
                ≡ some (run_error (failure args.query args.name query_rate_limited))))
  check_lem now l sound h = rw (thrown-check now l sound h) (
      split (query_exceeded o.max_concurrent (query_entry o args l))
        (context_exceeded o.max_concurrent_per_context (context_entry o args l))
        (query_exceeded_iff o.max_concurrent (query_entry o args l))
        (context_exceeded_iff o.max_concurrent_per_context (context_entry o args l)))
