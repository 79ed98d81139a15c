-- ===== src/Handler/Tests.antt =====
-- Runs of core/query/sql-query-handler.ts on small inputs.
use vexnor.Base.{◌≡◌, refl, inl, ℕ, ◌+◌, Bool, true, none, some, List, [], ◌∷◌}
use vexnor.Errors.{
  returned, threw, run_error, other_error, Action, SqlRunError, query_retryable_failure, ◌>>=◌,
  ◌>>◌,
}
use vexnor.Pipeline.{Mode, Shared}
use vexnor.Rendering.Values.{object, primitive, Fields, end, field, resolve_path}
use vexnor.Handler.{Source, RunOptions, always, run_local}
use vexnor.Handler.Rows.{all, one, first, any, one-returned}
use vexnor.Handler.Local.{Settled, run_local-Settled}
use vexnor.Handler.Validation.{HandlerParam, check_all}
use vexnor.Handler.Leaks.{Allowed, check_all-leaks}

abbrev source : Source
source = record {
  query = record { ref = record { id = "q1"; location = none }; authorization = [] };
  hash = "h1";
  label = some "report";
  sources = "main" ∷ [];
}

abbrev busy : SqlRunError
busy = record {
  query_id = "q1";
  query_location = none;
  query_name = none;
  sql = none;
  code = query_retryable_failure;
  retryable = true;
}

-- Each execution is counted and fails.
abbrev fails : Unit {0} → Mode → Action (Shared ℕ) (List ℕ)
fails db mode s = (threw (run_error busy), record s { world = s.world + 1 })

abbrev broken : Unit {0} → Mode → Action (Shared ℕ) (List ℕ)
broken db mode s = (threw (other_error "socket closed"), s)

abbrev still_time : Shared ℕ → ℕ
still_time s = 0

abbrev no_wait : ℕ → Action (Shared ℕ) Unit
no_wait n s = (returned tt, s)

abbrev as_it_is : List ℕ → Bool → Action (Shared ℕ) (List ℕ)
as_it_is rows remote s = (returned rows, s)

abbrev same : List ℕ → Action (Shared ℕ) (List ℕ)
same rows s = (returned rows, s)

abbrev rows_there : List ℕ → Bool
rows_there rows = true

abbrev fresh : Shared ℕ
fresh = record { in_flight = 0; world = 0 }

abbrev marked : RunOptions (Unit {0}) (Shared ℕ)
marked = record { timeout = some 100; retryable = some always; retry = none }

run_local-Settled_example :
    Settled
      (some always)
      (run_local still_time rows_there as_it_is broken source "report" tt marked Mode.read fresh).0
run_local-Settled_example =
    run_local-Settled still_time rows_there as_it_is broken source "report" tt marked Mode.read
      fresh

abbrev context_of : Fields ℕ → Unit {0}
context_of fs = tt

abbrev order_by : HandlerParam ℕ
order_by = record {
  name = "orderBy";
  default = none;
  has_rules = true;
  has_object_rules = true;
  valid = λ names v. true;
  conforms = λ names v. true;
}

abbrev request : Fields ℕ
request =
    field "select" (object (field "total" (primitive 1) end))
      (field "orderBy" (object (field "total" (primitive 2) end)) end)

check_all-leaks_example :
    Allowed "total" "orderBy"
      (check_all ("total" ∷ []) request (order_by ∷ []) (("orderBy", "email" ∷ []) ∷ [])).1
unfolding check_all resolve_path ◌>>◌
check_all-leaks_example =
    check_all-leaks "total" ("total" ∷ []) request (field "total" (primitive 2) end) order_by [] []
      (("orderBy", "email" ∷ []) ∷ []) (inl refl) refl refl refl

abbrev one_row : Action (Shared ℕ) (List ℕ)
one_row s = (returned (7 ∷ []), s)

abbrev every : List ℕ → List ℕ
every rows = rows

abbrev there : ℕ → Bool
there n = true

one-returned_example :
    (all one_row every there fresh ≡ (returned (7 ∷ []), fresh))
    × (first one_row every there fresh ≡ (returned (some 7), fresh))
    × (any one_row every there fresh ≡ (returned (some 7), fresh))
unfolding one ◌>>=◌
one-returned_example = one-returned one_row every there 7 fresh fresh refl
