-- ===== src/Pipeline.antt =====
-- execution/sql-query-pipeline-plugin.ts and execution/sql-query-pipeline.ts: plugins, their
-- registration, and the phases of `execute`. A hook is an action over the pipeline's counter and a
-- world of its own, which the code around an `await` may change as well. The proofs are in the
-- modules below.
pub mod Retry
pub mod Run
pub mod Phases
pub mod Bracket
pub mod Gates
pub mod Attempts
pub mod Interleave
pub mod Registration
mod Tests
use vexnor.Base.{
  ◌&&◌, ℕ, zero, suc, ◌+◌, ◌-◌, leb, nat_eq, String, Bool, true, false, Option, none, some, List,
  [], ◌∷◌, ◌++◌, if◌then◌else◌, ltb, length,
}
use vexnor.Errors.{
  Thrown, run_error, other_error, Outcome, returned, threw, Action, ◌>>=◌, ◌>>◌, pure, raise, catch,
  new_run_error, QueryRef, query_not_authorized, query_rate_limited, registry_not_authorized,
  SqlErrorCode,
}

-- What the pipeline reads of a query: its identity and its `.authorize()` tags.
pub record Query : Type 0 where
  pub ref : QueryRef
  pub authorization : List String

-- `SqlExecuteMode`
pub data Mode : Type 0 where
  read write : Mode

-- `SqlPipelineExecutionArgs`
pub record ExecutionArgs (P C : Type 0) : Type 0 where
  pub plugin : String
  pub query : Query
  pub name : String
  pub mode : Mode
  pub params : P
  pub context : C

-- `SqlPipelineEndArgs`: `error` is `none` on success.
pub record EndArgs (P C : Type 0) : Type 0 where
  pub args : ExecutionArgs P C
  pub duration_ms : ℕ
  pub error : Option Thrown

-- What executions share: the pipeline's `inFlight`, and the state behind the callbacks.
pub record Shared (W : Type 0) : Type 0 where
  pub in_flight : ℕ
  pub world : W

-- `phase` of `onError`
pub data Phase (P C : Type 0) : Type 0 where
  init before : ExecutionArgs P C → Phase P C
  end : EndArgs P C → Phase P C

-- `SqlQueryPipelinePlugin`. The identity is the object's, which `indexOf` compares.
pub record Plugin (P C W : Type 0) : Type 0 where
  pub identity : ℕ
  pub name : String
  pub init_hook : Option (ExecutionArgs P C → Action (Shared W) Unit)
  pub check_hook : Option (ExecutionArgs P C → Action (Shared W) Unit)
  pub before_hook : Option (ExecutionArgs P C → Action (Shared W) Unit)
  pub end_hook : Option (EndArgs P C → Action (Shared W) Unit)
  pub on_error : Option (Thrown → Phase P C → Action (Shared W) Unit)

-- An event listener: the closure that one call of `use` made over its plugin.
pub record Listener (P C W : Type 0) : Type 0 where
  pub token : ℕ
  pub plugin : Plugin P C W

-- `SqlRetryArgs` and `SqlRetryOptions`. `max_attempts` is a whole number, `should_retry` and
-- `delay_ms` are absent or callbacks (a constant delay is a constant callback).
pub record RetryArgs (E : Type 0) : Type 0 where
  pub error : Thrown
  pub attempt : ℕ
  pub max_attempts : ℕ
  pub execution : E

pub record RetryOptions (E S : Type 0) : Type 0 where
  pub max_attempts : Option ℕ
  pub should_retry : Option (RetryArgs E → Action S Bool)
  pub delay_ms : Option (RetryArgs E → Action S ℕ)

-- `SqlQueryPipelineOptions`; `retry: false` and an absent `retry` are both `none`.
pub record Options (P C W : Type 0) : Type 0 where
  pub max_concurrent : Option ℕ
  pub retry : Option (RetryOptions (ExecutionArgs P C) (Shared W))
  pub on_plugin_error : Option (Thrown → Plugin P C W → Phase P C → Action (Shared W) Unit)

pub record Pipeline (P C W : Type 0) : Type 0 where
  pub options : Options P C W
  pub authorize_hooks : List (ExecutionArgs P C → Action (Shared W) Unit)
  pub check_plugins : List (Plugin P C W)
  pub init_listeners : List (Listener P C W)
  pub before_listeners : List (Listener P C W)
  pub end_listeners : List (Listener P C W)
  pub next_token : ℕ

abbrev pub is_some {ℓ} : {A : Type ℓ} → Option A → Bool
is_some none = false
is_some (some a) = true

abbrev append_if {ℓ} : {A : Type ℓ} → Bool → A → List A → List A
append_if b x xs = if b then xs ++ x ∷ [] else xs

abbrev pub is_empty {ℓ} : {A : Type ℓ} → List A → Bool
is_empty [] = true
is_empty (x ∷ xs) = false

-- The tagged queries among those given.
unfoldable pub authorized : List Query → List Query
authorized [] = []
authorized (q ∷ qs) = if ltb 0 (length q.authorization) then q ∷ authorized qs else authorized qs

module _ {P C W : Type 0} where
  unfoldable pub new_pipeline : Options P C W → Pipeline P C W
  new_pipeline o = record {
    options = o;
    authorize_hooks = [];
    check_plugins = [];
    init_listeners = [];
    before_listeners = [];
    end_listeners = [];
    next_token = 0;
  }

  -- `use`, which returns the token that its unsubscribe function closes over.
  unfoldable pub attach : Pipeline P C W → Plugin P C W → Pipeline P C W × ℕ
  attach p plugin =
      let listener : Listener P C W = record { token = p.next_token; plugin = plugin } in
      (
        record p {
          check_plugins = append_if (is_some plugin.check_hook) plugin p.check_plugins;
          init_listeners = append_if (is_some plugin.init_hook) listener p.init_listeners;
          before_listeners = append_if (is_some plugin.before_hook) listener p.before_listeners;
          end_listeners = append_if (is_some plugin.end_hook) listener p.end_listeners;
          next_token = suc p.next_token;
        },
        p.next_token,
      )

  -- `idx = indexOf(plugin); if (idx >= 0) splice(idx, 1)`: the first occurrence goes.
  unfoldable pub splice : ℕ → List (Plugin P C W) → List (Plugin P C W)
  splice i [] = []
  splice i (q ∷ qs) = if nat_eq q.identity i then qs else q ∷ splice i qs

  -- `removeEventListener`
  unfoldable pub remove_listener : ℕ → List (Listener P C W) → List (Listener P C W)
  remove_listener t [] = []
  remove_listener t (l ∷ ls) = if nat_eq l.token t then ls else l ∷ remove_listener t ls

  -- The function that `use` returns.
  unfoldable pub unsubscribe : Pipeline P C W → Plugin P C W → ℕ → Pipeline P C W
  unfolding splice remove_listener
  unsubscribe p plugin token = record p {
    check_plugins = splice plugin.identity p.check_plugins;
    init_listeners = remove_listener token p.init_listeners;
    before_listeners = remove_listener token p.before_listeners;
    end_listeners = remove_listener token p.end_listeners;
  }

  unfoldable pub register_authorization :
      Pipeline P C W → (ExecutionArgs P C → Action (Shared W) Unit) → Pipeline P C W
  register_authorization p hook = record p { authorize_hooks = p.authorize_hooks ++ hook ∷ [] }

  -- Startup validation: the code of the `SqlError` that it throws, if it throws.
  unfoldable pub check_authorization : Pipeline P C W → List Query → Option SqlErrorCode
  unfolding authorized
  check_authorization p queries =
      if ltb 0 (length (authorized queries)) && is_empty p.authorize_hooks
      then some registry_not_authorized
      else none

  unfoldable pub register_all :
      Pipeline P C W → List (ExecutionArgs P C → Action (Shared W) Unit) → Pipeline P C W
  unfolding register_authorization
  register_all p [] = p
  register_all p (hook ∷ hooks) = register_all (register_authorization p hook) hooks

  unfoldable pub attach_all : Pipeline P C W → List (Plugin P C W) → Pipeline P C W
  unfolding attach
  attach_all p [] = p
  attach_all p (q ∷ qs) = attach_all (attach p q).0 qs

  -- `SqlQueryPipeline.from`
  unfoldable pub from_source : Pipeline P C W → Pipeline P C W
  unfolding new_pipeline register_all attach_all
  from_source source =
      attach_all (register_all (new_pipeline source.options) source.authorize_hooks)
        source.check_plugins
