-- ===== src/BuildContext/Keywords.antt =====
-- core/builder/sql-build-context.ts: the keywords and parentheses that `next` follows, and
-- core/sql-constants.ts. Stacks are lists with the top in front. A text's tokens, and whether a
-- token is blank, come from the tokenizer, which is an argument.
use Prim.Native.Char.{code}
use vexnor.Base.{
  String, Bool, false, ◌&&◌, ◌||◌, not, Option, none, some, List, [], ◌∷◌, ◌++◌, if◌then◌else◌, leb,
  ltb, nat_eq, ◌==◌, length,
}
use vexnor.Base.Dict.{has}
use vexnor.Base.Int.{ℤ, inc, dec, int_eq}

-- `MAJOR_KEYWORDS`, as a set
abbrev pub major_keywords : List String
major_keywords =
    "with recursive" ∷ "with" ∷ "recursive" ∷ "partition by" ∷ "order by" ∷ "group by"
    ∷ "insert into" ∷ "delete from" ∷ "select" ∷ "from" ∷ "where" ∷ "join" ∷ "on" ∷ "on true"
    ∷ "having" ∷ "limit" ∷ "offset" ∷ "update" ∷ "returning" ∷ "values" ∷ "set" ∷ "fn" ∷ "over"
    ∷ "output" ∷ "exists" ∷ "apply" ∷ []

-- `SUBQUERY_STARTERS`
abbrev pub subquery_starters : List String
subquery_starters = "from" ∷ "join" ∷ "in" ∷ "exists" ∷ []

-- `_keywordStacks`, `_contextParentDepths` and `_parentDepth`
pub record KeywordState : Type 0 where
  pub stacks : List (List String)
  pub context_depths : List ℤ
  pub depth : ℤ

-- /^[a-z_]/.test(token)
abbrev pub is_name : String → Bool
is_name String.[] = false
is_name (String.◌∷◌ c s) = (leb b'a' (code c) && leb (code c) b'z') || nat_eq (code c) b'_'

abbrev pub top {ℓ} : {A : Type ℓ} → List A → Option A
top [] = none
top (x ∷ xs) = some x

abbrev pub pop {ℓ} : {A : Type ℓ} → List A → List A
pop [] = []
pop (x ∷ xs) = xs

-- The loop of the getter `keyword`: the last keyword of the stack.
unfoldable pub last_keyword : List String → Option String
last_keyword [] = none
last_keyword (k ∷ ks) = let rest = last_keyword ks in if has k major_keywords then some k else rest

-- `keywords`, the generator
unfoldable pub all_keywords : List String → List String
all_keywords [] = []
all_keywords (k ∷ ks) =
    let rest = all_keywords ks in if has k major_keywords then k ∷ rest else rest

-- tokens.slice(i + 1).find((t) => t.trim())
unfoldable pub next_meaningful : (String → Bool) → List String → Option String
next_meaningful is_blank [] = none
next_meaningful is_blank (t ∷ ts) =
    let rest = next_meaningful is_blank ts in if is_blank t then rest else some t

-- The context that a parenthesis opens, if it opens one: whether the word before it is consumed,
-- and the new keyword stack.
pub data Opening : Type 0 where
  nothing : Opening
  keeping consuming : List String → Opening

abbrev pub opening_select : Option String → Opening
opening_select none = nothing
opening_select (some t) = if t == "select" then keeping [] else nothing

unfoldable pub opening : (previous next : Option String) → Opening
unfolding has
opening none next = opening_select next
opening (some p) next =
    if p == "over" || p == "apply"
    then consuming (p ∷ [])
    else if has p subquery_starters
    then keeping (p ∷ [])
    else if is_name p && not (has p major_keywords)
    then consuming ("fn" ∷ [])
    else opening_select next

abbrev pub open_context : Opening → List String → List (List String) → KeywordState → KeywordState
open_context nothing k ks s = record s { depth = inc s.depth }
open_context (keeping new) k ks s = record {
  stacks = new ∷ k ∷ ks;
  context_depths = s.depth ∷ s.context_depths;
  depth = inc s.depth;
}
open_context (consuming new) k ks s = record {
  stacks = new ∷ pop k ∷ ks;
  context_depths = s.depth ∷ s.context_depths;
  depth = inc s.depth;
}

-- The depth at which the innermost context was opened, if there is one.
abbrev pub opened_at : ℤ → List ℤ → Bool
opened_at depth [] = false
opened_at depth (d ∷ ds) = int_eq depth d

unfoldable pub close_context : KeywordState → KeywordState
unfolding dec int_eq
close_context s =
    if ltb 1 (length s.stacks) && opened_at (dec s.depth) s.context_depths
    then record {
      stacks = pop s.stacks;
      context_depths = pop s.context_depths;
      depth = dec s.depth;
    }
    else record s { depth = dec s.depth }

-- `none` is the failed assertion of the getter `keywordStack`.
abbrev pub open_parenthesis :
    Option String → List (List String) → KeywordState → Option KeywordState
unfolding opening
open_parenthesis next [] s = none
open_parenthesis next (k ∷ ks) s = some (open_context (opening (top k) next) k ks s)

abbrev pub push_token : String → List (List String) → KeywordState → Option KeywordState
push_token token [] s = none
push_token token (k ∷ ks) s = some (record s { stacks = (token ∷ k) ∷ ks })

-- The body of the loop of `next`, at a token with those behind it.
unfoldable pub next_token :
    (String → Bool) → String → List String → KeywordState → Option KeywordState
unfolding next_meaningful opening close_context
next_token is_blank token rest s =
    if token == "("
    then open_parenthesis (next_meaningful is_blank rest) s.stacks s
    else if token == ")"
    then some (close_context s)
    else push_token token s.stacks s

abbrev pub and_then {ℓ} : {A B : Type ℓ} → Option A → (A → Option B) → Option B
and_then none f = none
and_then (some a) f = f a

-- The loop of `next`, over the first tokens of a text; `rest` are those behind them.
unfoldable pub next_tokens :
    (String → Bool) → (tokens rest : List String) → KeywordState → Option KeywordState
unfolding next_token
next_tokens is_blank [] rest s = some s
next_tokens is_blank (t ∷ ts) rest s =
    and_then (next_token is_blank t (ts ++ rest) s) (next_tokens is_blank ts rest)

-- `next`
unfoldable pub next :
    (tokenize : String → List String) (is_blank : String → Bool) (text : String)
    → KeywordState
    → Option KeywordState
unfolding next_tokens
next tokenize is_blank text s = next_tokens is_blank (tokenize text) [] s

-- The state of a new context, and what `scope` does for a main query.
abbrev pub start : KeywordState
start = record { stacks = [] ∷ []; context_depths = ℤ.pos 0 ∷ []; depth = ℤ.pos 0 }
