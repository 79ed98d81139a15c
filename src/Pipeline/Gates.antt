-- ===== src/Pipeline/Gates.antt =====
-- What `execute` returns and throws, and what stops a query before it reaches the database.
use vexnor.Base.{
  ℕ, ◌≡◌, refl, sym, ap, ◌∙◌, Option, some, List, [], ◌∷◌, arith, String, ◌⊎◌, inl, inr,
}
use vexnor.Errors.{
  Thrown, run_error, other_error, Outcome, returned, threw, Action, ◌>>◌, raise, SqlRunError,
  with_options, new_run_error, query_not_authorized,
}
use vexnor.Pipeline.{ExecutionArgs, Shared, RetryOptions, Pipeline}
use vexnor.Pipeline.Run.{
  execute_body, execute, finish, rethrow, rethrow_outcome, failure, run_authorize,
  run_check_plugins,
}
use vexnor.Pipeline.Bracket.{opened, execute_lem, finish_lem}

-- A gate throws: authorization, or after it the check plugins.
abbrev pub Rejects :
    {P C W : Type 0} → Pipeline P C W → ExecutionArgs P C → Shared W → Thrown → Type 0
Rejects p args t e =
    ((run_authorize p args t).0 ≡ threw e)
    ⊎ (((run_authorize p args t).0 ≡ returned tt)
        × ((run_check_plugins p.check_plugins args (run_authorize p args t).1).0 ≡ threw e))

module _ {P C W A : Type 0} (p : Pipeline P C W) (clock : Shared W → ℕ)
    (sleep : ℕ → Action (Shared W) Unit) (args : ExecutionArgs P C)
    (retry : Option (Option (RetryOptions (ExecutionArgs P C) (Shared W)))) where
  -- The outcome is the body's, with its error rethrown under the query's name.
  pub outcome-execute :
      (q : ℕ → Action (Shared W) A) (s : Shared W)
      → (execute clock sleep p args q retry s).0
        ≡ rethrow_outcome args (execute_body sleep p args q retry (opened p args s)).0
  outcome-execute q s =
      let r = execute_body sleep p args q retry (opened p args s) in
      rw (execute_lem p clock sleep args q retry s) (rw (finish_lem p clock (clock s) args r.0 r.1))

  rethrow_outcome-threw :
      (o : Outcome A) (e : Thrown)
      → rethrow_outcome args o ≡ threw e
      → (r : SqlRunError) × (e ≡ run_error r) × (r.query_name ≡ some args.name)
  unfolding rethrow with_options failure new_run_error
  rethrow_outcome-threw (returned a) e h = cc
  rethrow_outcome-threw (threw (run_error x)) (run_error r) h = (r, refl, ground arith)
  rethrow_outcome-threw (threw (run_error x)) (other_error m) h = cc
  rethrow_outcome-threw (threw (other_error x)) (run_error r) h = (r, refl, ground arith)
  rethrow_outcome-threw (threw (other_error x)) (other_error m) h = cc

  -- Whatever a hook, a check, a plugin or the query throws, `execute` throws a `SqlRunError` that
  -- carries the name of the execution.
  pub execute-threw :
      (q : ℕ → Action (Shared W) A) (s : Shared W) (e : Thrown)
      → (execute clock sleep p args q retry s).0 ≡ threw e
      → (r : SqlRunError) × (e ≡ run_error r) × (r.query_name ≡ some args.name)
  execute-threw q s e h = rethrow_outcome-threw _ e (sym (outcome-execute q s) ∙ h)

  execute_stopped :
      (q q' : ℕ → Action (Shared W) A) (s : Shared W)
      → execute_body sleep p args q retry (opened p args s)
        ≡ execute_body sleep p args q' retry (opened p args s)
      → execute clock sleep p args q retry s ≡ execute clock sleep p args q' retry s
  execute_stopped q q' s h =
      execute_lem p clock sleep args q retry s
      ∙ ap (finish clock (clock s) p args) h
      ∙ sym (execute_lem p clock sleep args q' retry s)

  body-rejected :
      (q : ℕ → Action (Shared W) A) (t : Shared W) (e : Thrown)
      → Rejects p args t e
      → execute_body sleep p args q retry t ≡ (
        threw e,
        elim (run_authorize p args t).0 [
          | returned _ ↦ (run_check_plugins p.check_plugins args (run_authorize p args t).1).1
          | threw _ ↦ (run_authorize p args t).1
        ],
      )
  unfolding execute_body ◌>>◌
  body-rejected q t e (inl h) = rw h
  body-rejected q t e (inr (h, k)) = rw h (rw k)

  -- Where a gate throws `e`, `execute` throws `e` under the query's name, and it is the same
  -- execution, state included, for every query function: none is called.
  pub execute-rejected :
      (q q' : ℕ → Action (Shared W) A) (s : Shared W) (e : Thrown)
      → Rejects p args (opened p args s) e
      → (execute clock sleep p args q retry s ≡ execute clock sleep p args q' retry s)
        × ((execute clock sleep p args q retry s).0 ≡ threw (rethrow args e))
  execute-rejected q q' s e h = (
    execute_stopped q q' s
        (body-rejected q (opened p args s) e h ∙ sym (body-rejected q' (opened p args s) e h)),
    outcome-execute q s ∙ rw (body-rejected q (opened p args s) e h),
  )

  -- A query with tags is refused as not authorized, and not run, where no hook is registered.
  pub execute-no_hook :
      (q q' : ℕ → Action (Shared W) A) (s : Shared W) (tag : String) (tags : List String)
      → args.query.authorization ≡ tag ∷ tags
      → p.authorize_hooks ≡ []
      → (execute clock sleep p args q retry s ≡ execute clock sleep p args q' retry s)
        × ((execute clock sleep p args q retry s).0
            ≡ threw (run_error (failure args.query args.name query_not_authorized)))
  unfolding rethrow with_options failure new_run_error
  execute-no_hook q q' s tag tags h k =
      let refused = execute-rejected q q' s _ (inl (unauthorized (opened p args s))) in
      (refused.0, refused.1)
    where
      unauthorized :
          (t : Shared W)
          → (run_authorize p args t).0
            ≡ threw (run_error (failure args.query args.name query_not_authorized))
      unauthorized t = unfold run_authorize raise in rw (h, k)
