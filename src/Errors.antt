-- ===== src/Errors.antt =====
-- core/sql-error-code.ts and core/sql-run-error.ts: the errors that the execution layer throws.
-- Texts of messages are not modelled; what the code branches on is.
pub mod Keeps
use vexnor.Base.{String, Bool, false, Option, none, some}

pub data SqlErrorCode : Type 0 where
  query_build_failed query_execution_failed query_parameters_invalid query_timeout : SqlErrorCode
  query_not_found query_not_authorized query_rate_limited query_retryable_failure : SqlErrorCode
  param_validation_failed registry_not_authorized connection_not_valid : SqlErrorCode
  multi_source_query : SqlErrorCode

-- The identity of a query that an error carries (`SqlRunQueryRef`).
pub record QueryRef : Type 0 where
  pub id : String
  pub location : Option String

pub record SqlRunError : Type 0 where
  pub query_id : String
  pub query_location : Option String
  pub query_name : Option String
  pub sql : Option String
  pub code : SqlErrorCode
  pub retryable : Bool

-- `SqlRunErrorOptions`
pub record ErrorOptions : Type 0 where
  pub query_name : Option String
  pub sql : Option String
  pub code : SqlErrorCode
  pub retryable : Option Bool

-- a ?? b
abbrev pub or_else {ℓ} : {A : Type ℓ} → Option A → A → A
or_else none b = b
or_else (some a) b = a

abbrev pub or_option {ℓ} : {A : Type ℓ} → Option A → Option A → Option A
or_option none b = b
or_option (some a) b = some a

unfoldable pub new_run_error : QueryRef → ErrorOptions → SqlRunError
new_run_error q o = record {
  query_id = q.id;
  query_location = q.location;
  query_name = or_option o.query_name q.location;
  sql = o.sql;
  code = o.code;
  retryable = or_else o.retryable false;
}

-- The overrides of `withOptions`.
pub record Overrides : Type 0 where
  pub query_name : Option String
  pub sql : Option String
  pub code : Option SqlErrorCode
  pub retryable : Option Bool

unfoldable pub with_options : SqlRunError → Overrides → SqlRunError
unfolding new_run_error
with_options e o =
    new_run_error (record { id = e.query_id; location = e.query_location })
      (record {
        query_name = or_option o.query_name e.query_name;
        sql = or_option o.sql e.sql;
        code = or_else o.code e.code;
        retryable = some (or_else o.retryable e.retryable);
      })

-- What a `throw` throws: a `SqlRunError`, or anything else.
pub data Thrown : Type 0 where
  run_error : SqlRunError → Thrown
  other_error : String → Thrown

-- A call that may throw.
pub data Outcome {ℓ} (A : Type ℓ) : Type ℓ where
  returned : A → Outcome A
  threw : Thrown → Outcome A

-- An action over a state: what it wrote before a throw stays written.
abbrev pub Action {ℓ} : Type ℓ → Type ℓ → Type ℓ
Action S A = S → Outcome A × S

-- The rest of a block, after the call whose outcome is given.
abbrev pub continue {ℓ} : {S A B : Type ℓ} → (A → Action S B) → Outcome A → Action S B
continue f (returned a) s = f a s
continue f (threw e) s = (threw e, s)

-- The handler of a `catch`.
abbrev pub recover {ℓ} : {S A : Type ℓ} → (Thrown → Action S A) → Outcome A → Action S A
recover handler (returned a) s = (returned a, s)
recover handler (threw e) s = handler e s

unfoldable pub pure {ℓ} : {S A : Type ℓ} → A → Action S A
pure a s = (returned a, s)

unfoldable pub raise {ℓ} : {S A : Type ℓ} → Thrown → Action S A
raise e s = (threw e, s)

-- f ? await f(x) : d
unfoldable pub call_or {ℓ} :
    {S X B : Type ℓ} → Option (X → Action S B) → Action S B → X → Action S B
call_or none d x s = d s
call_or (some f) d x s = f x s

infixl 10 ◌>>=◌ ◌>>◌
-- Opening this opens `pure`, `raise` and `call_or` too.
unfoldable pub ◌>>=◌ {ℓ} : {S A B : Type ℓ} → Action S A → (A → Action S B) → Action S B
unfolding pure raise call_or
◌>>=◌ m f s = let r = m s in continue f r.0 r.1

unfoldable pub ◌>>◌ {ℓ} : {S A B : Type ℓ} → Action S A → Action S B → Action S B
unfolding pure raise call_or
◌>>◌ m k s = let r = m s in continue (λ _. k) r.0 r.1

-- try { m } catch (err) { handler(err) }
unfoldable pub catch {ℓ} : {S A : Type ℓ} → Action S A → (Thrown → Action S A) → Action S A
unfolding pure raise call_or
catch m handler s = let r = m s in recover handler r.0 r.1
