-- ===== src/BuildContext/Restores.antt =====
-- What `scope` leaves of the stacks of a context.
use vexnor.Base.{◌≡◌, refl, ap, Option, none, some, Bool, String, List}
use vexnor.Errors.{Action}
use vexnor.BuildContext.Keywords.{pop}
use vexnor.BuildContext.Queries.{Query, QueryInfo, add_query}
use vexnor.BuildContext.Scope.{Context, QueryType, main, inline, with_queries, enter, leave, scope}

module _ {V C : Type 0} where
  -- The action leaves the queries under way, and all keyword stacks and alias maps but the
  -- innermost, as they are, whether it returns or throws.
  abbrev pub Keeps : {A : Type 0} → Action (Context V C) A → Type 0
  Keeps f =
      (s : Context V C)
      → ((f s).1.query_stack ≡ s.query_stack)
        × (pop (f s).1.keywords.stacks ≡ pop s.keywords.stacks)
        × (pop (f s).1.aliases.stack ≡ pop s.aliases.stack)

  abbrev SameStacks : QueryType → (s t : Context V C) → Type 0
  SameStacks main s t =
      (t.keywords.stacks ≡ s.keywords.stacks) × (t.aliases.stack ≡ s.aliases.stack)
  SameStacks inline s t =
      (pop t.keywords.stacks ≡ pop s.keywords.stacks) × (pop t.aliases.stack ≡ pop s.aliases.stack)

  -- Where the callback keeps the stacks, `scope` ends with the expression depth, the queries under
  -- way and, for a main query, all keyword stacks and alias maps with which it began, whether the
  -- callback returns or throws; inline, the innermost of these may differ.
  pub scope-SameStacks :
      {A : Type 0} (label : String) (q : Query) (f : Action (Context V C) A) (type : QueryType)
      (cte : Option Bool) (s : Context V C)
      → Keeps f
      → ((scope label q f type cte s).1.expr_depth ≡ s.expr_depth)
        × ((scope label q f type cte s).1.query_stack ≡ s.query_stack)
        × SameStacks type s (scope label q f type cte s).1
  unfolding scope
  scope-SameStacks label q f type cte s k = go type (add_query q cte s.queries)
    where
      go :
          (y : QueryType) (o : Option (Option QueryInfo × List (String × QueryInfo)))
          → ((leave y s.expr_depth (f (enter label q y (with_queries o s))).1).expr_depth
              ≡ s.expr_depth)
            × ((leave y s.expr_depth (f (enter label q y (with_queries o s))).1).query_stack
                ≡ s.query_stack)
            × SameStacks y s (leave y s.expr_depth (f (enter label q y (with_queries o s))).1)
      go main none = let (a, b, c) = k (enter label q main s) in (refl, ap pop a, (b, c))
      go main (some r) =
          let (a, b, c) = k (enter label q main (with_queries (some r) s)) in
          (refl, ap pop a, (b, c))
      go inline none = let (a, b, c) = k s in (refl, a, (b, c))
      go inline (some r) = let (a, b, c) = k (with_queries (some r) s) in (refl, a, (b, c))

  -- So scopes can stand in scopes.
  pub scope-Keeps :
      {A : Type 0} (label : String) (q : Query) (f : Action (Context V C) A) (type : QueryType)
      (cte : Option Bool)
      → Keeps f
      → Keeps (scope label q f type cte)
  scope-Keeps label q f main cte k s =
      let (a, b, (c, d)) = scope-SameStacks label q f main cte s k in (b, ap pop c, ap pop d)
  scope-Keeps label q f inline cte k s =
      let (a, b, (c, d)) = scope-SameStacks label q f inline cte s k in (b, c, d)
