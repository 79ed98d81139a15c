-- ===== src/Pipeline/Bracket.antt =====
-- `execute` as a bracket: what `init` opens, `end` closes, on every path through the phases.
use vexnor.Base.{ℕ, ◌-◌, ◌≡◌, refl, Option, List, [], ◌∷◌}
use vexnor.Errors.{Thrown, Outcome, returned, threw, Action, ◌>>◌, pure, catch, recover}
use vexnor.Pipeline.{
  ExecutionArgs, Shared, Phase, init, before, end, Plugin, Listener, RetryOptions, Pipeline,
}
use vexnor.Pipeline.Run.{
  handle_plugin_error, invoke_plugin_listener, fire, dispatch, execute_body, execute, error_of,
  finish, rethrow_outcome,
}
use vexnor.Pipeline.Phases.{Calm, Keeps-execute_body}

recover-returns :
    {S : Type 0} (m : Action S Unit) (handler : Thrown → Action S Unit)
    → ((e : Thrown) (s : S) → (handler e s).0 ≡ returned tt)
    → (s : S) → (catch m handler s).0 ≡ returned tt
unfolding catch
recover-returns {S} m handler k s = go (m s).0 (m s).1
  where
    go : (o : Outcome Unit) (t : S) → (recover handler o t).0 ≡ returned tt
    go (returned tt) t = refl
    go (threw e) t = k e t

module _ {P C W : Type 0} (p : Pipeline P C W) where
  invoke-returns :
      (q : Plugin P C W) (phase : Phase P C) (fn : Action (Shared W) Unit) (s : Shared W)
      → (invoke_plugin_listener p q phase fn s).0 ≡ returned tt
  unfolding invoke_plugin_listener handle_plugin_error pure
  invoke-returns q phase fn = recover-returns fn _ (λ e. recover-returns _ _ (λ e' s. refl))

  fire-returns :
      (phase : Phase P C) (q : Plugin P C W) (s : Shared W) → (fire p phase q s).0 ≡ returned tt
  unfolding fire
  fire-returns (init args) q = invoke-returns q (init args) _
  fire-returns (before args) q = invoke-returns q (before args) _
  fire-returns (end args) q = invoke-returns q (end args) _

  -- A listener never stops a dispatch: its errors go to the handlers, and theirs are dropped.
  pub dispatch-returns :
      (phase : Phase P C) (ls : List (Listener P C W)) (s : Shared W)
      → (dispatch p phase ls s).0 ≡ returned tt
  unfolding dispatch ◌>>◌
  dispatch-returns phase [] s = refl
  dispatch-returns phase (l ∷ ls) s =
      rw (fire-returns phase l.plugin s) (dispatch-returns phase ls (fire p phase l.plugin s).1)

  -- The state after `init`, in which the body runs.
  abbrev pub opened : ExecutionArgs P C → Shared W → Shared W
  opened args s = (dispatch p (init args) p.init_listeners s).1

  -- The end event sees the state that the body left, and the outcome stays what the body made it.
  pub finish_lem :
      {A : Type 0} (clock : Shared W → ℕ) (start : ℕ) (args : ExecutionArgs P C) (o : Outcome A)
      (t : Shared W)
      → finish clock start p args (o, t) ≡ (
        rethrow_outcome args o,
        (dispatch p
            (end (record { args = args; duration_ms = clock t - start; error = error_of o }))
            p.end_listeners
            t).1,
      )
  unfolding finish ◌>>◌
  finish_lem clock start args o t = rw (dispatch-returns (end _) p.end_listeners t)

  pub execute_lem :
      {A : Type 0} (clock : Shared W → ℕ) (sleep : ℕ → Action (Shared W) Unit)
      (args : ExecutionArgs P C) (execute_query : ℕ → Action (Shared W) A)
      (retry : Option (Option (RetryOptions (ExecutionArgs P C) (Shared W)))) (s : Shared W)
      → execute clock sleep p args execute_query retry s
        ≡ finish clock
            (clock s)
            p
            args
            (execute_body sleep p args execute_query retry (opened args s))
  unfolding execute ◌>>◌
  execute_lem clock sleep args execute_query retry s =
      rw (dispatch-returns (init args) p.init_listeners s)

-- If the init event takes `I` to `O`, the callbacks are calm for `O` (`N` within an attempt), and
-- the end event of these arguments takes `O` to `I'` whatever the outcome and the duration, then an execution takes
-- `I` to `I'`: the two events come as a pair, also when authorization, a check or the query throws.
pub execute-brackets :
    {P C W A : Type 0} {O N : Shared W → Type 0} (I I' : Shared W → Type 0) (p : Pipeline P C W)
    (clock : Shared W → ℕ) (sleep : ℕ → Action (Shared W) Unit) (args : ExecutionArgs P C)
    (execute_query : ℕ → Action (Shared W) A)
    (retry : Option (Option (RetryOptions (ExecutionArgs P C) (Shared W)))) (s : Shared W)
    → ((t : Shared W) → I t → O (dispatch p (init args) p.init_listeners t).1)
    → Calm O N sleep p args execute_query retry
    → ((duration : ℕ) (error : Option Thrown) (t : Shared W)
        → O t
        → I'
            (dispatch p
              (end (record { args = args; duration_ms = duration; error = error }))
              p.end_listeners
              t).1)
    → I s
    → I' (execute clock sleep p args execute_query retry s).1
execute-brackets I I' p clock sleep args execute_query retry s opens calm closes h =
    let r = execute_body sleep p args execute_query retry (opened p args s) in
    rw (execute_lem p clock sleep args execute_query retry s) (
      rw (finish_lem p clock (clock s) args r.0 r.1) (
        closes (clock r.1 - clock s) (error_of r.0) r.1
          ((Keeps-execute_body calm).at _ (opens s h))))
