-- ===== src/BuildContext/Scope.antt =====
-- core/builder/sql-build-context.ts: the state of a context, what `addStrings`, `addValues`,
-- `addParam` and `addOperator` write, its columns, and `scope`. The callback of `scope` is an action
-- on the state. `V` is the type of values and `C` that of columns; `to_lower` is the lower case.
use Prim.Native.Char.{code}
use vexnor.Base.{
  ℕ, ◌+◌, ◌-◌, String, Bool, true, false, ◌&&◌, ◌||◌, Option, none, some, List, [], ◌∷◌, ◌++◌,
  if◌then◌else◌, nat_eq, leb, map, ◌==◌,
}
use vexnor.Base.Dict.{Dict, lookup, insert}
use vexnor.Errors.{returned, threw, other_error, Action}
use vexnor.BuildContext.Keywords.{KeywordState, pop}
use vexnor.BuildContext.Aliases.{Aliases}
use vexnor.BuildContext.Queries.{Query, id_of, QueryInfo, add_query}

-- `SqlBuildToken`; an operator token is its type.
pub data BuildToken (V : Type 0) : Type 0 where
  text : String → BuildToken V
  param : (name : String) → (array : Bool) → BuildToken V
  value : V → BuildToken V
  operator : String → BuildToken V

-- `SqlBuildContext`, less the tokenizer, the formatter, the dialect, the tag, the parameters and the
-- view filter, which nothing here changes.
pub record Context (V C : Type 0) : Type 0 where
  pub queries : Dict QueryInfo
  pub columns : Dict C
  pub tokens : List (BuildToken V)
  pub keywords : KeywordState
  pub expr_depth : ℕ
  pub next_text : Option String
  pub prev_text : Option String
  pub query_stack : List Query
  pub aliases : Aliases

-- /\s/
abbrev pub is_space : ℕ → Bool
is_space c =
    (leb 9 c && leb c 13)
    || nat_eq c 32
    || nat_eq c 160
    || nat_eq c 0x1680
    || (leb 0x2000 c && leb c 0x200a)
    || nat_eq c 0x2028
    || nat_eq c 0x2029
    || nat_eq c 0x202f
    || nat_eq c 0x205f
    || nat_eq c 0x3000
    || nat_eq c 0xfeff

-- Lower case, of the letters that the words of interest have.
abbrev lower : ℕ → ℕ
lower c = if leb b'A' c && leb c b'Z' then c + 32 else c

-- The last word before a place of a text, and whether white space follows it.
pub record LastWord : Type 0 where
  pub word : List ℕ
  pub ended : Bool

unfoldable after_char : ℕ → LastWord → LastWord
after_char c w =
    if is_space c
    then record w { ended = true }
    else if w.ended
    then record { word = lower c ∷ []; ended = false }
    else record { word = w.word ++ lower c ∷ []; ended = false }

-- lastWord === "as" || lastWord === "exists"
abbrev same_codes : List ℕ → List ℕ → Bool
same_codes [] [] = true
same_codes [] (y ∷ ys) = false
same_codes (x ∷ xs) [] = false
same_codes (x ∷ xs) (y ∷ ys) = nat_eq x y && same_codes xs ys

abbrev opens_query : LastWord → Bool
opens_query w =
    same_codes w.word (b'a' ∷ b's' ∷ [])
    || same_codes w.word (b'e' ∷ b'x' ∷ b'i' ∷ b's' ∷ b't' ∷ b's' ∷ [])

-- The body of the loop of `addStrings`: a parenthesis raises or lowers `_exprDepth`.
unfoldable depth_after : ℕ → LastWord → ℕ → ℕ
depth_after c w depth =
    if nat_eq c b'('
    then (if opens_query w then depth else depth + 1)
    else if nat_eq c b')'
    then depth - 1
    else depth

-- The loop over the characters of one string.
unfoldable pub depth_of : String → LastWord → ℕ → ℕ
unfolding depth_after after_char
depth_of String.[] w depth = depth
depth_of (String.◌∷◌ c s) w depth =
    depth_of s (after_char (code c) w) (depth_after (code c) w depth)

abbrev pub no_word : LastWord
no_word = record { word = []; ended = false }

unfoldable pub depth_of_all : List String → ℕ → ℕ
unfolding depth_of
depth_of_all [] depth = depth
depth_of_all (s ∷ ss) depth = depth_of_all ss (depth_of s no_word depth)

-- `ok(strings[0], …)`: the first string is there and not empty.
abbrev pub first_text : List String → Bool
first_text [] = false
first_text (s ∷ ss) = if s == "" then false else true

-- The value tokens, as the getter `values` gives them.
unfoldable pub values_of : {V : Type 0} → List (BuildToken V) → List V
values_of [] = []
values_of (value v ∷ ts) = v ∷ values_of ts
values_of (text t ∷ ts) = values_of ts
values_of (param name array ∷ ts) = values_of ts
values_of (operator type ∷ ts) = values_of ts

-- The loop of `addColumns`.
unfoldable pub put_columns : {C : Type 0} → (to_lower : String → String) → Dict C → Dict C → Dict C
put_columns to_lower [] columns = columns
put_columns to_lower ((name, c) ∷ cols) columns =
    put_columns to_lower cols (insert (to_lower name) c columns)

-- `args.queryType`, where an absent one is inline
pub data QueryType : Type 0 where
  main inline : QueryType

module _ {V C : Type 0} where
  -- `addStrings`
  unfoldable pub add_strings : List String → Action (Context V C) (Unit {0})
  unfolding depth_of_all
  add_strings strings s =
      if first_text strings
      then (
        returned tt,
        record s {
          tokens = s.tokens ++ map text strings;
          expr_depth = depth_of_all strings s.expr_depth;
        },
      )
      else (threw (other_error "strings is required"), s)

  -- `addValues`, where `value ?? null` is done by the values
  unfoldable pub add_values : List V → Context V C → Context V C
  add_values values s = record s { tokens = s.tokens ++ map value values }

  -- `addParam`
  unfoldable pub add_param : (name : String) (array : Bool) → Context V C → Context V C
  add_param name array s = record s { tokens = s.tokens ++ param name array ∷ [] }

  -- `addOperator`
  unfoldable pub add_operator : String → Context V C → Context V C
  add_operator type s = record s { tokens = s.tokens ++ operator type ∷ [] }

  -- `getColumn`
  abbrev pub get_column : (to_lower : String → String) → String → Context V C → Option C
  get_column to_lower name s = lookup (to_lower name) s.columns

  -- `addColumns`
  unfoldable pub add_columns : (to_lower : String → String) → Dict C → Context V C → Context V C
  unfolding put_columns
  add_columns to_lower cols s = record s { columns = put_columns to_lower cols s.columns }

  -- this.addQuery(query, …), whose loop does not run out of fuel
  abbrev pub with_queries : Option (Option QueryInfo × Dict QueryInfo) → Context V C → Context V C
  with_queries none s = s
  with_queries (some r) s = record s { queries = r.1 }

  -- What a main query pushes, its label with its identifier, with `_exprDepth` reset.
  abbrev pub enter : (label : String) → Query → QueryType → Context V C → Context V C
  enter label q inline s = s
  enter label q main s = record s {
    query_stack = q ∷ s.query_stack;
    keywords = record s.keywords { stacks = [] ∷ s.keywords.stacks };
    aliases = record s.aliases {
      stack = (("$queryId", id_of q) ∷ ("$query", label) ∷ []) ∷ s.aliases.stack;
    };
    expr_depth = 0;
  }

  -- The block `finally`, with the saved depth.
  abbrev pub leave : QueryType → (saved : ℕ) → Context V C → Context V C
  leave inline saved s = record s { expr_depth = saved }
  leave main saved s = record s {
    expr_depth = saved;
    query_stack = pop s.query_stack;
    keywords = record s.keywords { stacks = pop s.keywords.stacks };
    aliases = record s.aliases { stack = pop s.aliases.stack };
  }

  -- `scope`
  unfoldable pub scope :
      {A : Type 0}
      → (label : String) → Query
      → Action (Context V C) A
      → QueryType
      → (cte : Option Bool) → Action (Context V C) A
  scope label q callback type cte s =
      let entered = enter label q type (with_queries (add_query q cte s.queries) s) in
      let r = callback entered in (r.0, leave type s.expr_depth r.1)
