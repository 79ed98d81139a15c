-- ===== src/QueryBuild/Scopes.antt =====
-- What the actions of a build keep, one rule for each of them: the queries under way, the alias
-- maps but the innermost, and what is written.
use vexnor.Base.{
  ◌≡◌, refl, ap, sym, ◌∙◌, Option, none, some, Bool, true, false, String, List, [], ◌∷◌, ◌++◌, map,
  if◌then◌else◌, ◌==◌,
}
use mathlib.Core.List.{append_assoc, append-nil}
use vexnor.Base.Dict.{Dict}
use vexnor.Errors.{Action, Outcome, returned, threw, other_error, pure}
use vexnor.Errors.Keeps.{Keeps, Keeps-pure, Keeps-then, Keeps-if}
use vexnor.BuildContext.Keywords.{KeywordState, top, pop, next}
use vexnor.BuildContext.Queries.{Query, QueryInfo, add_query, is_cte}
use vexnor.BuildContext.Scope.{
  Context, BuildToken, text, value, first_text, depth_of_all, QueryType, main, inline, add_strings,
  add_values, with_queries, enter, leave, scope,
}
use vexnor.QueryBuild.{
  get_query_name, current_query_name, emit, set_hints, keyword, is_cte_in, boundary, named,
  name_of_top, with_keywords, found_keyword, known_cte,
}

module _ {V C : Type 0} where
  -- The second context comes after the first.
  pub record After (s t : Context V C) : Type 0 where
    pub same_queries : t.query_stack ≡ s.query_stack
    pub same_outer : pop t.aliases.stack ≡ pop s.aliases.stack
    pub written : (more : List (BuildToken V)) × (t.tokens ≡ s.tokens ++ more)

  pub After-refl : (s : Context V C) → After s s
  After-refl s = record {
    same_queries = refl;
    same_outer = refl;
    written = ([], sym (append-nil s.tokens));
  }

  pub After-trans : (s t u : Context V C) → After s t → After t u → After s u
  After-trans s t u h k = record {
    same_queries = k.same_queries ∙ h.same_queries;
    same_outer = k.same_outer ∙ h.same_outer;
    written =
        let (m, p) = h.written in
        let (n, q) = k.written in (m ++ n, q ∙ ap (λ z. z ++ n) p ∙ append_assoc s.tokens m n);
  }

  pub Keeps-step :
      {A : Type 0} (m : Action (Context V C) A) (s : Context V C)
      → ((t : Context V C) → After t (m t).1)
      → Keeps (After s) m
  Keeps-step m s k = record { at = λ t h. After-trans s t (m t).1 h (k t) }

  pub Keeps-add_strings :
      (strings : List String) (s : Context V C) → Keeps (After s) (add_strings strings)
  unfolding add_strings
  Keeps-add_strings strings s = Keeps-step _ s (λ t. go t (first_text strings))
    where
      go :
          (t : Context V C) (b : Bool)
          → After t
              (if◌then◌else◌ {A = Outcome (Unit {0}) × Context V C} b
                (
                  returned tt,
                  record t {
                    tokens = t.tokens ++ map text strings;
                    expr_depth = depth_of_all strings t.expr_depth;
                  },
                )
                (threw (other_error "strings is required"), t)).1
      go t true = record {
        same_queries = refl;
        same_outer = refl;
        written = (map text strings, refl);
      }
      go t false = After-refl t

  pub Keeps-add_values :
      (values : List V) (s : Context V C)
      → Keeps (After s) (λ t. (returned tt, add_values values t))
  unfolding add_values
  Keeps-add_values values s =
      Keeps-step _ s
        (λ t. record { same_queries = refl; same_outer = refl; written = (map value values, refl) })

  -- An action that changes neither the queries under way, nor the aliases, nor what is written.
  still :
      (t u : Context V C)
      → u.query_stack ≡ t.query_stack
      → u.aliases ≡ t.aliases
      → u.tokens ≡ t.tokens
      → After t u
  still t u p q r = record {
    same_queries = p;
    same_outer = ap (λ a. pop a.stack) q;
    written = ([], r ∙ sym (append-nil t.tokens));
  }

  After-named :
      (o : Option (Option QueryInfo × Dict QueryInfo)) (t : Context V C) → After t (named o t).1
  After-named none t = After-refl t
  After-named (some (none, m)) t = still t _ refl refl refl
  After-named (some (some info, m)) t = still t _ refl refl refl

  pub Keeps-get_query_name : (q : Query) (s : Context V C) → Keeps (After s) (get_query_name q)
  unfolding get_query_name
  Keeps-get_query_name q s = Keeps-step _ s (λ t. After-named (add_query q none t.queries) t)

  pub Keeps-current_query_name : (s : Context V C) → Keeps (After s) current_query_name
  unfolding current_query_name get_query_name
  Keeps-current_query_name s = Keeps-step _ s (λ t. go t (top t.query_stack))
    where
      go : (t : Context V C) (o : Option Query) → After t (name_of_top o t).1
      go t none = After-refl t
      go t (some q) = After-named (add_query q none t.queries) t

  Keeps-with_keywords :
      (o : Option KeywordState) (s : Context V C) → Keeps (After s) (with_keywords o)
  Keeps-with_keywords none s = Keeps-step _ s After-refl
  Keeps-with_keywords (some k) s = Keeps-step _ s (λ t. still t _ refl refl refl)

  pub Keeps-emit :
      (tokenize : String → List String) (is_blank : String → Bool) (o : Option String)
      (s : Context V C)
      → Keeps (After s) (emit tokenize is_blank o)
  unfolding emit pure
  Keeps-emit tokenize is_blank none s = Keeps-pure tt
  Keeps-emit tokenize is_blank (some x) s = Keeps-if (x == "") _ _ (Keeps-pure tt) (
      Keeps-then _ _ (Keeps-add_strings (x ∷ []) s)
        (record { at = λ c. (Keeps-with_keywords (next tokenize is_blank x c.keywords) s).at c }))

  pub Keeps-set_hints :
      (next_text prev_text : Option String) (s : Context V C)
      → Keeps (After s) (set_hints next_text prev_text)
  unfolding set_hints
  Keeps-set_hints next_text prev_text s = Keeps-step _ s (λ t. still t _ refl refl refl)

  pub Keeps-keyword : (s : Context V C) → Keeps (After s) keyword
  unfolding keyword
  Keeps-keyword s = Keeps-step _ s (λ t. go t t.keywords.stacks)
    where
      go : (t : Context V C) (ks : List (List String)) → After t (found_keyword ks t).1
      go t [] = After-refl t
      go t (k ∷ ks) = After-refl t

  pub Keeps-is_cte_in : (q : Query) (s : Context V C) → Keeps (After s) (is_cte_in q)
  unfolding is_cte_in
  Keeps-is_cte_in q s = Keeps-step _ s (λ t. go t (is_cte q t.queries))
    where
      go : (t : Context V C) (o : Option Bool) → After t (known_cte o t).1
      go t none = After-refl t
      go t (some b) = After-refl t

  pub Keeps-boundary : (b : Bool) (x : String) (s : Context V C) → Keeps (After s) (boundary b x)
  unfolding boundary
  Keeps-boundary false x s = Keeps-pure tt
  Keeps-boundary true x s = Keeps-add_strings (x ∷ []) s

  -- Which alias maps stay as they were: for a main query all, inline all but the innermost.
  abbrev pub SameAliases : QueryType → (s t : Context V C) → Type 0
  SameAliases main s t = t.aliases.stack ≡ s.aliases.stack
  SameAliases inline s t = pop t.aliases.stack ≡ pop s.aliases.stack

  -- The second context comes after the first, in which a query of the given type was built.
  pub record Restored (type : QueryType) (s t : Context V C) : Type 0 where
    pub after : After s t
    pub same_depth : t.expr_depth ≡ s.expr_depth
    pub same_aliases : SameAliases type s t

  Restored-leave :
      (label : String) (q : Query) (type : QueryType) (s t : Context V C)
      → After (enter label q type s) t
      → Restored type s (leave type s.expr_depth t)
  Restored-leave label q main s t h = record {
    after = record {
      same_queries = ap pop h.same_queries;
      same_outer = ap pop h.same_outer;
      written = h.written;
    };
    same_depth = refl;
    same_aliases = h.same_outer;
  }
  Restored-leave label q inline s t h = record {
    after = record {
      same_queries = h.same_queries;
      same_outer = h.same_outer;
      written = h.written;
    };
    same_depth = refl;
    same_aliases = h.same_outer;
  }

  -- What holds of a callback from each context on holds of its scope.
  pub scope-Restored :
      {A : Type 0} (label : String) (q : Query) (f : Action (Context V C) A) (type : QueryType)
      (cte : Option Bool)
      → ((s : Context V C) → Keeps (After s) f)
      → (s : Context V C) → Restored type s (scope label q f type cte s).1
  unfolding scope
  scope-Restored label q f type cte k s = go type (add_query q cte s.queries)
    where
      from : (e : Context V C) → After e (f e).1
      from e = (k e).at e (After-refl e)

      go :
          (y : QueryType) (o : Option (Option QueryInfo × Dict QueryInfo))
          → Restored y s (leave y s.expr_depth (f (enter label q y (with_queries o s))).1)
      go y none = Restored-leave label q y s _ (from _)
      go main (some r) =
          let h = Restored-leave label q main (with_queries (some r) s) _ (from _) in
          record {
            after = record {
              same_queries = h.after.same_queries;
              same_outer = h.after.same_outer;
              written = h.after.written;
            };
            same_depth = refl;
            same_aliases = h.same_aliases;
          }
      go inline (some r) =
          let h = Restored-leave label q inline (with_queries (some r) s) _ (from _) in
          record {
            after = record {
              same_queries = h.after.same_queries;
              same_outer = h.after.same_outer;
              written = h.after.written;
            };
            same_depth = refl;
            same_aliases = h.same_aliases;
          }

  pub Keeps-scope :
      {A : Type 0} (label : String) (q : Query) (f : Action (Context V C) A) (type : QueryType)
      (cte : Option Bool)
      → ((s : Context V C) → Keeps (After s) f)
      → (s : Context V C) → Keeps (After s) (scope label q f type cte)
  Keeps-scope label q f type cte k s =
      Keeps-step _ s (λ t. (scope-Restored label q f type cte k t).after)
