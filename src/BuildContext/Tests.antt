-- ===== src/BuildContext/Tests.antt =====
-- Concrete contexts on which the theorems are applied.
use vexnor.Base.{◌≡◌, refl, ℕ, String, Bool, arith, false, none, some, List, [], ◌∷◌, ◌==◌}
use vexnor.Base.Int.{ℤ, ◌<ℤ◌, inc, dec, int_eq}
use vexnor.Base.Digits.{decimal, digits}
use vexnor.Base.Dict.{Dict, lookup, insert, has}
use vexnor.Errors.{returned, Action}
use vexnor.BuildContext.Keywords.{
  next_tokens, next_token, opening, next_meaningful, close_context, last_keyword, start,
}
use vexnor.BuildContext.Nesting.{
  Balanced, empty, word, group, state, Nested, next_tokens-Nested, next_tokens-closes,
}
use vexnor.BuildContext.AliasNames.{TableIdentity, get_table_id, new_alias, initials}
use vexnor.BuildContext.Aliases.{Aliases, get_alias}
use vexnor.BuildContext.AliasFresh.{Separate, get_alias-Separate}
use vexnor.BuildContext.Queries.{
  Query, query, no_more, and_also, QueryInfo, add_query, register, size, size_all, info_of,
}
use vexnor.BuildContext.Numbered.{IsRegistry}
use vexnor.BuildContext.AddQuery.{Adds, add_query-Adds}
use vexnor.BuildContext.Scope.{Context, main, scope, depth_of, no_word, add_strings}
use vexnor.BuildContext.Restores.{Keeps, scope-SameStacks}
use vexnor.BuildContext.Tokenizer.{tokenize}

abbrev blank : String → Bool
blank t = t == ""

-- select count(id), …
abbrev counted : List String
counted = "select" ∷ "count" ∷ "(" ∷ "id" ∷ ")" ∷ "," ∷ []

counted-Balanced : Balanced counted
counted-Balanced =
    word refl refl (word refl refl (group (word refl refl empty) (word refl refl empty) refl))

next_tokens-Nested_example :
    Nested blank counted [] [] (("from" ∷ []) ∷ []) (ℤ.pos 0 ∷ []) (ℤ.pos 1)
next_tokens-Nested_example =
    next_tokens-Nested blank [] [] ("from" ∷ []) [] (ℤ.pos 0) [] (ℤ.pos 1) counted-Balanced
      (unfold ◌<ℤ◌ in omega arith)

-- where (id) in the main scope of an outermost query: its keyword stack goes.
next_tokens-closes_example :
    next_tokens blank
      ("(" ∷ "id" ∷ ")" ∷ [])
      []
      (state (("where" ∷ "from" ∷ "select" ∷ []) ∷ [] ∷ []) (ℤ.pos 0 ∷ []) (ℤ.pos 0))
    ≡ some (state ([] ∷ []) [] (ℤ.pos 0))
next_tokens-closes_example =
    next_tokens-closes blank ("id" ∷ []) ("where" ∷ "from" ∷ "select" ∷ []) [] [] [] (ℤ.pos 0)
      (word refl refl empty) (unfold opening next_meaningful has in refl)

closed_test :
    next_tokens blank ("where" ∷ "(" ∷ "id" ∷ ")" ∷ "and" ∷ []) [] start
    ≡ some (state (("and" ∷ "id" ∷ "where" ∷ []) ∷ []) (ℤ.pos 0 ∷ []) (ℤ.pos 0))
unfolding next_tokens next_token opening next_meaningful close_context has inc dec int_eq
closed_test = refl

keyword_test : last_keyword ("id" ∷ "where" ∷ "from" ∷ []) ≡ some "where"
unfolding last_keyword has
keyword_test = refl

abbrev orders : TableIdentity
orders = record { schema = some "shop"; name = "order_items"; alias = none; out = false }

abbrev fresh : Aliases
fresh = record { stack = (("$queryId", "q1") ∷ []) ∷ []; counter = 10 }

alias_test : (get_alias orders fresh).0 ≡ returned "oi_10"
unfolding get_alias get_table_id new_alias initials decimal digits lookup insert
alias_test = refl

fresh-Separate : Separate (("$queryId", "q1") ∷ []) fresh
fresh-Separate = record {
  below = λ id alias p h. absurd (cc (p, h));
  apart = λ id other alias p q h k. absurd (cc (p, h));
}

get_alias-Separate_example : Separate (("$queryId", "q1") ∷ []) (get_alias orders fresh).1
get_alias-Separate_example =
    get_alias-Separate (("$queryId", "q1") ∷ []) orders fresh fresh-Separate

-- A query with two inside, of which one stands in the other too.
abbrev shared : Query
shared = query "q3" none no_more

abbrev outer : Query
outer =
    query "q1" (some "report")
      (and_also (query "q2" none (and_also shared no_more)) (and_also shared no_more))

nothing-IsRegistry : IsRegistry [] []
nothing-IsRegistry = record {
  counted = tt;
  distinct = tt;
  closed = λ id info q h i. absurd (unfold lookup in cc h);
}

abbrev known : Dict QueryInfo
unfolding info_of
known =
    ("q1", info_of none 0 outer)
    ∷ ("q2", info_of none 1 (query "q2" none (and_also shared no_more)))
    ∷ ("q3", info_of none 2 shared)
    ∷ []

known_test : add_query outer none [] ≡ some (some (info_of none 0 outer), known)
unfolding add_query register size_all size info_of decimal digits insert lookup
known_test = refl

add_query-Adds_example :
    (info : QueryInfo) × (after : Dict QueryInfo) × (add_query outer none []
      ≡ some (some info, after))
    × Adds outer [] info after
add_query-Adds_example = add_query-Adds outer none [] nothing-IsRegistry

abbrev context : Context ℕ ℕ
context = record {
  queries = [];
  columns = [];
  tokens = [];
  keywords = start;
  expr_depth = 2;
  next_text = none;
  prev_text = none;
  query_stack = [];
  aliases = fresh;
}

abbrev writes : Action (Context ℕ ℕ) (Unit {0})
unfolding add_strings
writes = add_strings ("count(" ∷ "id" ∷ [])

writes-Keeps : Keeps writes
unfolding add_strings
writes-Keeps s = (refl, refl, refl)

scope-SameStacks_example :
    ((scope "report" outer writes main none context).1.expr_depth ≡ 2)
    × ((scope "report" outer writes main none context).1.query_stack ≡ [])
    × (((scope "report" outer writes main none context).1.keywords.stacks ≡ [] ∷ [])
        × ((scope "report" outer writes main none context).1.aliases.stack
            ≡ (("$queryId", "q1") ∷ []) ∷ []))
scope-SameStacks_example = scope-SameStacks "report" outer writes main none context writes-Keeps

depth_test : depth_of "exists (lower(a" no_word 0 ≡ 1
unfolding depth_of
depth_test = refl

-- The closing parenthesis is no token.
swallowed_test : tokenize "where (1)" ≡ some (returned ("where" ∷ "(" ∷ "1)" ∷ []))
unfolding tokenize
swallowed_test = refl
