-- ===== src/RateLimiter.antt =====
-- execution/time-to-live-rate-limiter.ts. The clock is an argument of each call; durations are the
-- values of a number type with the operations that the rolling average uses. The proofs are in the
-- modules below.
pub mod Metrics
pub mod Sweep
pub mod Counts
pub mod Sound
pub mod Attached
mod Tests
use vexnor.Base.{
  ℕ, zero, suc, ◌+◌, ◌-◌, ◌*◌, ltb, nat_eq, String, Bool, true, false, ◌&&◌, Option, none, some,
  List, [], ◌∷◌, if◌then◌else◌,
}
use vexnor.Base.Dict.{Dict, lookup, insert, delete}
use vexnor.Errors.{Thrown, run_error, other_error, or_else, query_rate_limited}
use vexnor.Pipeline.{ExecutionArgs, EndArgs}
use vexnor.Pipeline.Run.{failure, wrap}

-- The arithmetic of `durationMs`, a number of JavaScript.
pub record Duration (D : Type 0) : Type 0 where
  pub nought : D
  pub plus : D → D → D
  pub minus : D → D → D
  pub over : D → ℕ → D

pub record QueryMetrics (D : Type 0) : Type 0 where
  pub in_flight : ℕ
  pub total_calls : ℕ
  pub total_errors : ℕ
  pub avg_duration_ms : D

pub record ContextMetrics (D : Type 0) : Type 0 where
  pub context_key : String
  pub metrics : QueryMetrics D
  pub open metrics use *
  pub last_activity_at : ℕ

-- `LimitArgs`
pub record LimitArgs (P C D : Type 0) : Type 0 where
  pub args : ExecutionArgs P C
  pub query_metrics : QueryMetrics D
  pub context_metrics : Option (ContextMetrics D)

-- `TimeToLiveRateLimiterOptions`; the limit hook throws or returns.
pub record LimiterOptions (P C D : Type 0) : Type 0 where
  pub context_key_resolver : Option (C → String)
  pub context_metrics_ttl_ms : Option ℕ
  pub max_concurrent : Option ℕ
  pub max_concurrent_per_context : Option ℕ
  pub limit : Option (LimitArgs P C D → Option Thrown)

pub record Limiter (D : Type 0) : Type 0 where
  pub query_metrics : Dict (QueryMetrics D)
  pub context_metrics : Dict (Dict (ContextMetrics D))

unfoldable pub new_limiter : {D : Type 0} → Limiter D
new_limiter = record { query_metrics = []; context_metrics = [] }

abbrev pub apply? : {A B : Type 0} → Option (A → B) → A → Option B
apply? none a = none
apply? (some f) a = some (f a)

-- The idle test of `sweep`; `lastActivityAt < now - ttl` without a negative number.
abbrev pub is_idle : {D : Type 0} → (ttl now : ℕ) → ContextMetrics D → Bool
is_idle ttl now m = nat_eq m.in_flight 0 && ltb (m.last_activity_at + ttl) now

unfoldable pub sweep_inner :
    {D : Type 0} → (ttl now : ℕ) → Dict (ContextMetrics D) → Dict (ContextMetrics D)
sweep_inner ttl now [] = []
sweep_inner ttl now ((k, m) ∷ inner) =
    let rest = sweep_inner ttl now inner in if is_idle ttl now m then rest else (k, m) ∷ rest

unfoldable pub map_inner : {V W : Type 0} → (V → W) → Dict V → Dict W
map_inner f [] = []
map_inner f ((k, v) ∷ d) = (k, f v) ∷ map_inner f d

abbrev pub default_ttl : ℕ
default_ttl = 5 * 60 * 1000

unfoldable pub sweep : {P C D : Type 0} → LimiterOptions P C D → ℕ → Limiter D → Limiter D
unfolding sweep_inner map_inner
sweep o now l =
    let ttl = or_else o.context_metrics_ttl_ms default_ttl in
    record l { context_metrics = map_inner (sweep_inner ttl now) l.context_metrics }

-- `clearContextMetrics`
unfoldable pub clear_context_metrics : {D : Type 0} → Option String → Limiter D → Limiter D
unfolding map_inner
clear_context_metrics none l = record l { context_metrics = [] }
clear_context_metrics (some key) l = record l {
  context_metrics = map_inner (delete key) l.context_metrics;
}

module _ {D : Type 0} (d : Duration D) where
  abbrev pub fresh : QueryMetrics D
  fresh = record { in_flight = 0; total_calls = 0; total_errors = 0; avg_duration_ms = d.nought }

  -- `inFlight++; totalCalls++`
  abbrev pub started : QueryMetrics D → QueryMetrics D
  started m = record m { in_flight = m.in_flight + 1; total_calls = m.total_calls + 1 }

  -- The update of `end()`.
  unfoldable pub ended : Bool → D → QueryMetrics D → QueryMetrics D
  ended failed duration m =
      let in_flight = m.in_flight - 1 in
      let completed = m.total_calls - in_flight in
      record {
        in_flight = in_flight;
        total_calls = m.total_calls;
        total_errors = if failed then m.total_errors + 1 else m.total_errors;
        avg_duration_ms =
            d.plus m.avg_duration_ms (d.over (d.minus duration m.avg_duration_ms) completed);
      }

  -- `getOrCreateQueryMetrics`
  abbrev pub query_metrics_of : String → Limiter D → QueryMetrics D
  query_metrics_of key l = or_else (lookup key l.query_metrics) fresh

  abbrev pub inner_of : String → Limiter D → Dict (ContextMetrics D)
  inner_of key l = or_else (lookup key l.context_metrics) []

  -- `getOrCreateContextMetrics`, with the metrics that `init` starts.
  abbrev pub start_context : ℕ → String → Dict (ContextMetrics D) → Dict (ContextMetrics D)
  start_context now context_key inner =
      let m =
        or_else (lookup context_key inner)
          (record { context_key = context_key; metrics = fresh; last_activity_at = now }) in
      insert context_key
        (record {
          context_key = m.context_key;
          metrics = started m.metrics;
          last_activity_at = now;
        })
        inner

  init_context : ℕ → String → Option String → Limiter D → Limiter D
  init_context now key none l = l
  init_context now key (some context_key) l = record l {
    context_metrics = insert key (start_context now context_key (inner_of key l)) l.context_metrics;
  }

  unfoldable pub init :
      {P C : Type 0} → LimiterOptions P C D → ℕ → ExecutionArgs P C → Limiter D → Limiter D
  unfolding init_context
  init o now args l =
      let key = args.query.ref.id in
      init_context now key (apply? o.context_key_resolver args.context)
        (record l { query_metrics = insert key (started (query_metrics_of key l)) l.query_metrics })

  end_inner :
      ℕ
      → Bool
      → D
      → String
      → Dict (ContextMetrics D)
      → Option (ContextMetrics D)
      → Dict (ContextMetrics D)
  unfolding ended
  end_inner now failed duration context_key inner none = inner
  end_inner now failed duration context_key inner (some m) =
      insert context_key
        (record {
          context_key = m.context_key;
          metrics = ended failed duration m.metrics;
          last_activity_at = now;
        })
        inner

  end_context :
      ℕ
      → Bool
      → D
      → String
      → Option String
      → Option (Dict (ContextMetrics D))
      → Limiter D
      → Limiter D
  unfolding end_inner
  end_context now failed duration key (some context_key) (some inner) l = record l {
    context_metrics =
        insert key (end_inner now failed duration context_key inner (lookup context_key inner))
          l.context_metrics;
  }
  end_context now failed duration key context_key inner l = l

  end_with :
      ℕ
      → (key : String) → Option String
      → Bool
      → D
      → Option (QueryMetrics D)
      → Limiter D
      → Limiter D
  unfolding ended end_context
  end_with now key context_key failed duration none l = l
  end_with now key context_key failed duration (some m) l =
      end_context now failed duration key context_key (lookup key l.context_metrics)
        (record l { query_metrics = insert key (ended failed duration m) l.query_metrics })

  -- `end`, with the error flag and the duration of its arguments.
  unfoldable pub end :
      {P C : Type 0}
      → LimiterOptions P C D
      → (now : ℕ) → ExecutionArgs P C
      → (failed : Bool) → (duration : D) → Limiter D
      → Limiter D
  unfolding end_with
  end o now args failed duration l =
      let key = args.query.ref.id in
      end_with now key (apply? o.context_key_resolver args.context) failed duration
        (lookup key l.query_metrics) l

-- `limit !== undefined && inFlight > limit`
abbrev pub exceeded : Option ℕ → ℕ → Bool
exceeded none n = false
exceeded (some limit) n = ltb limit n

-- `limit !== undefined && qm && qm.inFlight > limit`
abbrev pub query_exceeded : {D : Type 0} → Option ℕ → Option (QueryMetrics D) → Bool
query_exceeded limit none = false
query_exceeded limit (some m) = exceeded limit m.in_flight

abbrev pub context_exceeded : {D : Type 0} → Option ℕ → Option (ContextMetrics D) → Bool
context_exceeded limit none = false
context_exceeded limit (some m) = exceeded limit m.in_flight

abbrev pub context_of :
    {D : Type 0} → Option String → Option (Dict (ContextMetrics D)) → Option (ContextMetrics D)
context_of (some context_key) (some inner) = lookup context_key inner
context_of context_key inner = none

module _ {P C D : Type 0} (o : LimiterOptions P C D) (args : ExecutionArgs P C) where
  -- The `catch` around the limit hook.
  abbrev pub wrapped : Option Thrown → Option Thrown
  wrapped none = none
  wrapped (some e) = some (wrap args.query args.name query_rate_limited e)

  call_limit : Option (QueryMetrics D) → Option (ContextMetrics D) → Option Thrown
  call_limit none cm = none
  call_limit (some qm) cm =
      elim (apply? o.limit (record { args = args; query_metrics = qm; context_metrics = cm })) [
        | none ↦ none
        | some thrown ↦ wrapped thrown
      ]

  -- What `check` throws for the metrics that it reads.
  unfoldable pub verdict : Option (QueryMetrics D) → Option (ContextMetrics D) → Option Thrown
  unfolding call_limit failure
  verdict qm cm =
      if query_exceeded o.max_concurrent qm
      then some (run_error (failure args.query args.name query_rate_limited))
      else if context_exceeded o.max_concurrent_per_context cm
      then some (run_error (failure args.query args.name query_rate_limited))
      else call_limit qm cm

  -- The metrics that `check` reads.
  abbrev pub query_entry : Limiter D → Option (QueryMetrics D)
  query_entry l = lookup args.query.ref.id l.query_metrics

  abbrev pub context_entry : Limiter D → Option (ContextMetrics D)
  context_entry l =
      context_of (apply? o.context_key_resolver args.context)
        (lookup args.query.ref.id l.context_metrics)

  unfoldable pub check : ℕ → Limiter D → Limiter D × Option Thrown
  unfolding sweep verdict
  check now l = let l' = sweep o now l in (l', verdict (query_entry l') (context_entry l'))
