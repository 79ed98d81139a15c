-- ===== src/Pipeline/Tests.antt =====
-- Concrete pipelines on which the theorems are applied.
use vexnor.Base.{ℕ, suc, ◌+◌, ◌-◌, ◌≤◌, ◌≡◌, refl, none, some, [], ◌∷◌, arith, Bool, ◌∙◌, true, inl}
use vexnor.Errors.{
  Thrown, run_error, other_error, returned, threw, Action, pure, raise, query_not_authorized,
  SqlRunError, ◌>>◌, catch, call_or,
}
use vexnor.Pipeline.{
  Query, ExecutionArgs, EndArgs, Shared, init, end, Plugin, RetryOptions, RetryArgs, Options,
  Pipeline, read, new_pipeline, attach, unsubscribe, from_source,
}
use vexnor.Pipeline.Retry.{run_with_retry}
use vexnor.Pipeline.Run.{
  dispatch, execute, rethrow, failure, fire, invoke_plugin_listener, enter, check_max_concurrent,
  run_authorize, run_check_plugins, attempt_once, execute_body,
}
use vexnor.Errors.Keeps.{Keeps, absent, present}
use vexnor.Pipeline.Phases.{Calm, no_retry, policy}
use vexnor.Pipeline.Bracket.{execute-brackets}
use vexnor.Pipeline.Gates.{outcome-execute, execute-threw, execute-rejected}
use vexnor.Pipeline.Attempts.{run_with_retry-calls}
use vexnor.Pipeline.Interleave.{Overlap}
use vexnor.Pipeline.Registration.{IsNew, unsubscribe-attach, from_source-attach}

abbrev State : Type 0
State = Shared ℕ

abbrev ping : Query
ping = record { ref = record { id = "q1"; location = none }; authorization = [] }

abbrev tagged : Query
tagged = record { ref = record { id = "q2"; location = none }; authorization = "admin" ∷ [] }

abbrev call : Query → ExecutionArgs Unit Unit
call q = record { plugin = "pg"; query = q; name = "ping"; mode = read; params = tt; context = tt }

abbrev one_at_a_time : Options Unit Unit ℕ
one_at_a_time = record { max_concurrent = some 1; retry = none; on_plugin_error = none }

abbrev raised : State → State
raised s = record s { world = s.world + 1 }

abbrev lowered : State → State
lowered s = record s { world = s.world - 1 }

-- A plugin that counts the executions that are open.
abbrev meter : Plugin Unit Unit ℕ
meter = record {
  identity = 7;
  name = "meter";
  init_hook = some (λ a s. (returned tt, raised s));
  check_hook = none;
  before_hook = none;
  end_hook = some (λ a s. (returned tt, lowered s));
  on_error = none;
}

abbrev empty : Pipeline Unit Unit ℕ
unfolding new_pipeline
empty = new_pipeline one_at_a_time

abbrev metered : Pipeline Unit Unit ℕ
unfolding attach
metered = (attach empty meter).0

abbrev idle : State
idle = record { in_flight = 0; world = 0 }

abbrev now : State → ℕ
now s = s.world

abbrev no_sleep : ℕ → Action State Unit
no_sleep n = pure tt

abbrev broken : ℕ → Action State ℕ
broken n = raise (other_error "connection lost")

abbrev answer : ℕ → Action State ℕ
answer n = pure n

abbrev World : ℕ → State → Type 0
World n s = s.world ≡ n

broken-Calm : Calm (World 1) (World 1) no_sleep metered (call ping) broken none
unfolding new_pipeline attach dispatch pure raise
broken-Calm = record {
  authorizes = tt;
  checks = tt;
  befores = record { at = λ s h. h };
  queries = λ n. record { at = λ s h. h };
  retries = no_retry;
  sleeps = λ n. record { at = λ s h. h };
  enters = λ s h. h;
  leaves = λ s h. h;
}

meter-opens :
    (t : State)
    → World 0 t
    → World 1 (dispatch metered (init (call ping)) metered.init_listeners t).1
unfolding new_pipeline attach dispatch fire invoke_plugin_listener catch ◌>>◌ call_or pure
meter-opens t h = omega (arith, h)

meter-closes :
    (e : EndArgs Unit Unit) (t : State)
    → World 1 t
    → World 0 (dispatch metered (end e) metered.end_listeners t).1
unfolding new_pipeline attach dispatch fire invoke_plugin_listener catch ◌>>◌ call_or pure
meter-closes e t h = omega (arith, h)

execute-brackets_example : World 0 (execute now no_sleep metered (call ping) broken none idle).1
execute-brackets_example =
    execute-brackets (World 0) (World 0) metered now no_sleep (call ping) broken none idle
      meter-opens broken-Calm (λ ms error. meter-closes _) refl

abbrev denied : Thrown
denied = run_error (failure tagged "ping" query_not_authorized)

tagged-denied :
    (run_authorize metered
      (call tagged)
      (dispatch metered (init (call tagged)) metered.init_listeners idle).1).0
    ≡ threw denied
unfolding run_authorize new_pipeline attach raise
tagged-denied = refl

execute-rejected_example :
    (execute now no_sleep metered (call tagged) answer none idle
      ≡ execute now no_sleep metered (call tagged) broken none idle)
    × ((execute now no_sleep metered (call tagged) answer none idle).0
        ≡ threw (rethrow (call tagged) denied))
execute-rejected_example =
    execute-rejected metered now no_sleep (call tagged) none answer broken idle denied
      (inl tagged-denied)

broken-throws :
    (execute now no_sleep empty (call ping) broken none idle).0
    ≡ threw (rethrow (call ping) (other_error "connection lost"))
unfolding new_pipeline
broken-throws =
    outcome-execute empty now no_sleep (call ping) none broken idle
    ∙ unfold execute_body run_authorize run_check_plugins run_with_retry attempt_once dispatch
        check_max_concurrent raise pure ◌>>◌ in
      refl

execute-threw_example :
    (r : SqlRunError) × (rethrow (call ping) (other_error "connection lost") ≡ run_error r)
    × (r.query_name ≡ some "ping")
execute-threw_example =
    execute-threw empty now no_sleep (call ping) none broken idle _ broken-throws

abbrev again : RetryArgs Unit → Action State Bool
again a = pure true

again-Keeps : (k : ℕ) (a : RetryArgs Unit) → Keeps (World k) (again a)
unfolding pure
again-Keeps k a = record { at = λ s h. h }

abbrev thrice : RetryOptions Unit State
thrice = record { max_attempts = some 3; should_retry = some again; delay_ms = none }

abbrev count : ℕ → Action State ℕ
count n s = (threw (other_error "busy"), raised s)

run_with_retry-calls_example :
    (1 ≤ (run_with_retry no_sleep (some thrice) tt count idle).1.world)
    × ((run_with_retry no_sleep (some thrice) tt count idle).1.world ≤ 3)
run_with_retry-calls_example =
    run_with_retry-calls (λ s. s.world) no_sleep (some thrice) tt count idle
      (λ k n. record { at = λ s h. unfold pure in h })
      (λ k. policy (record { asks = present (again-Keeps k); delays = absent })) (λ n t. refl)

abbrev first_in : Overlap ℕ
first_in = record { shared = enter idle; live = 4 ∷ [] }

abbrev nobody : Overlap ℕ
nobody = record { shared = idle; live = [] }

meter-IsNew : IsNew empty meter
unfolding new_pipeline
meter-IsNew = record { unknown = tt; init_tokens = tt; before_tokens = tt; end_tokens = tt }

unsubscribe-attach_example :
    unsubscribe (attach empty meter).0 meter (attach empty meter).1
    ≡ record empty { next_token = suc empty.next_token }
unsubscribe-attach_example = unsubscribe-attach empty meter meter-IsNew

from_source-attach_example : from_source (attach empty meter).0 ≡ from_source empty
from_source-attach_example = from_source-attach empty meter refl
