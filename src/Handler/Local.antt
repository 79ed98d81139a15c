-- ===== src/Handler/Local.antt =====
-- The errors of `runLocal`.
use vexnor.Base.{◌≡◌, refl, ℕ, String, Bool, true, false, Option, none, some}
use vexnor.Errors.{
  Thrown, run_error, other_error, Outcome, returned, threw, Action, raise, catch, recover,
  SqlRunError, new_run_error, with_options,
}
use vexnor.Pipeline.{Mode}
use vexnor.Handler.{
  Retryable, as_default, always, never, Source, RunOptions, resolve_retryable, local_error,
  run_local,
}

-- An error as `options.retryable` wants it.
abbrev pub Marked : Option Retryable → SqlRunError → Type 0
Marked none e = Unit
Marked (some as_default) e = Unit
Marked (some always) e = e.retryable ≡ true
Marked (some never) e = e.retryable ≡ false

abbrev pub Settled : {A : Type 0} → Option Retryable → Outcome A → Type 0
Settled option (returned a) = Unit
Settled option (threw (other_error m)) = ⊥
Settled option (threw (run_error e)) = Marked option e

local_error-Settled :
    (A : Type 0) (q : Source) (option : Option Retryable) (e : Thrown)
    → Settled {A = A} option (threw (local_error q option e))
unfolding local_error resolve_retryable new_run_error with_options
local_error-Settled A q none (run_error e) = tt
local_error-Settled A q (some as_default) (run_error e) = tt
local_error-Settled A q (some always) (run_error e) = refl
local_error-Settled A q (some never) (run_error e) = refl
local_error-Settled A q none (other_error m) = tt
local_error-Settled A q (some as_default) (other_error m) = tt
local_error-Settled A q (some always) (other_error m) = refl
local_error-Settled A q (some never) (other_error m) = refl

-- runLocal returns or throws a SqlRunError, whatever the execution and the deserialization throw;
-- where the options say true or false for retryable, the error says so too, also after a timeout.
pub run_local-Settled :
    {S A D E : Type 0} (clock : S → ℕ) (is_read : A → Bool) (deserialize : A → Bool → Action S A)
    (run_query : D → Mode → Action S A) (q : Source) (name : String) (db : D)
    (options : RunOptions E S) (mode : Mode) (s : S)
    → Settled options.retryable
        (run_local clock is_read deserialize run_query q name db options mode s).0
unfolding run_local catch raise
run_local-Settled {S} {A} clock is_read deserialize run_query q name db options mode s = go _ _
  where
    go :
        (o : Outcome A) (t : S)
        → Settled options.retryable (recover (λ e. raise (local_error q options.retryable e)) o t).0
    go (returned a) t = tt
    go (threw e) t = local_error-Settled A q options.retryable e
