-- ===== src/Pipeline/Interleave.antt =====
-- Executions that overlap: attempts of several executions begin and end in any order, and
-- callbacks run in between. The counter is what `attempt_once` makes of it.
use vexnor.Base.{ℕ, ◌≤◌, ◌≡◌, Option, none, some, List, ◌∷◌, ◌++◌, length, String}
use vexnor.Errors.{returned}
use vexnor.Pipeline.{Shared, Query, Pipeline}
use vexnor.Pipeline.Run.{check_max_concurrent, enter, leave}

-- The shared state, and the executions whose attempt has begun and not ended.
pub record Overlap (W : Type 0) : Type 0 where
  pub shared : Shared W
  pub live : List ℕ

pub data Step {P C W : Type 0} (p : Pipeline P C W) (s t : Overlap W) : Type 0 where
  -- An attempt passes `checkMaxConcurrent` and raises the counter; no `await` lies in between.
  begin :
      (id : ℕ) (name : String) (q : Query)
      → check_max_concurrent p name q s.shared ≡ (returned tt, s.shared)
      → t ≡ record { shared = enter s.shared; live = id ∷ s.live }
      → Step p s t
  -- The `finally` of an attempt.
  finish :
      (before after : List ℕ) (id : ℕ)
      → s.live ≡ before ++ id ∷ after
      → t ≡ record { shared = leave s.shared; live = before ++ after }
      → Step p s t
  -- Callbacks and other code change the world, and not the private counter.
  other :
      (w : W)
      → t ≡ record { shared = record { in_flight = s.shared.in_flight; world = w }; live = s.live }
      → Step p s t

pub data Reach {P C W : Type 0} (p : Pipeline P C W) (s : Overlap W) : Overlap W → Type 0 where
  here : Reach p s s
  next : {t u : Overlap W} → Reach p s t → Step p t u → Reach p s u

abbrev pub Fits : Option ℕ → ℕ → Type 0
Fits none n = Unit
Fits (some limit) n = n ≤ limit

pub record IsCounted {P C W : Type 0} (p : Pipeline P C W) (s : Overlap W) : Type 0 where
  pub counted : s.shared.in_flight ≡ length s.live
  pub fits : Fits p.options.max_concurrent s.shared.in_flight
