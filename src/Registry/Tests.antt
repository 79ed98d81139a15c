-- ===== src/Registry/Tests.antt =====
-- A registry with one query on which the theorems are applied.
use vexnor.Base.{ℕ, ◌≡◌, refl, String, true, false, none, some, List, [], ◌∷◌}
use vexnor.Base.Dict.{Dict, lookup}
use vexnor.Errors.{returned, Action, pure}
use vexnor.Pipeline.{read, ExecutionArgs, Shared, new_pipeline}
use vexnor.Registry.{
  Registered, MapEntry, Export, sql_query, Registry, ExecuteQueryArgs, register, add_queries,
  execution_args,
}
use vexnor.Registry.Params.{lookup-execution_args}

-- A query with a parameter of the client and one of the context.
abbrev orders : Registered
orders = record {
  hash = "h1";
  query = record { ref = record { id = "h1"; location = none }; authorization = [] };
  params = some (("status", false) ∷ ("tenant", true) ∷ []);
}

abbrev Values : Type 0
Values = Dict ℕ

abbrev fresh : Registry Values Values ℕ
unfolding new_pipeline
fresh = record {
  pipeline = new_pipeline (record { max_concurrent = none; retry = none; on_plugin_error = none });
  maps = [];
  plugins = [];
  strict_params = true;
}

abbrev exports : List (String × Export)
exports = ("list_orders", sql_query orders) ∷ []

fresh-registered : (register "pg" exports fresh).0 ≡ returned tt
unfolding register add_queries
fresh-registered = refl

abbrev known : MapEntry
known = record { query = orders; name = "list_orders" }

-- The client sends a tenant of its own, and a key that is not declared.
abbrev sent : Values
sent = ("tenant", 99) ∷ ("status", 1) ∷ ("extra", 7) ∷ []

abbrev signed_in : Values
signed_in = ("tenant", 5) ∷ []

lookup-execution_args_example :
    lookup "tenant" (execution_args 0 true "pg" known read sent signed_in).params ≡ some 5
unfolding lookup
lookup-execution_args_example =
    lookup-execution_args 0 true "pg" known read sent signed_in
      (("status", false) ∷ ("tenant", true) ∷ []) "tenant" refl (refl, (refl, tt))

abbrev stocked : Registry Values Values ℕ
stocked = record fresh { maps = ("pg", ("h1", known) ∷ []) ∷ []; plugins = "pg" ∷ [] }

abbrev idle : Shared ℕ
idle = record { in_flight = 0; world = 0 }

abbrev asked : ExecuteQueryArgs ℕ (ExecutionArgs Values Values) (Shared ℕ)
asked = record { plugin = "pg"; hash = "h2"; params = sent; mode = read; retry = none }

abbrev no_sleep : ℕ → Action (Shared ℕ) Unit
no_sleep n = pure tt

abbrev answer : ExecutionArgs Values Values → Values → Action (Shared ℕ) ℕ
answer given params = pure 1
