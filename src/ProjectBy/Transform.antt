-- ===== src/ProjectBy/Transform.antt =====
-- core/operators/sql-project-by.ts: `writeTransform`, `renderDateTrunc`, `inlineLiteral` and
-- `renderTransformForGroupBy`, at the text of the column.
use mathlib.Core.Option
use Prim.Native.String.{◌++◌ as str_append}
use Prim.Native.Char.{code}
use vexnor.Base.{
  String, Bool, true, false, ◌||◌, Option, none, some, List, [], ◌∷◌, ◌++◌, map, if◌then◌else◌,
  ◌==◌, nat_eq,
}
use vexnor.Base.Dict.{Dict, lookup}
use vexnor.FilterBy.{Token, text, value}
use vexnor.Ordering.Quote.{quoted}

-- An argument: a number is its text, with whether it is finite; anything else is its `String(…)`.
pub data Arg : Type 0 where
  undefined null : Arg
  number : (shown : String) → (finite : Bool) → Arg
  string other : String → Arg

-- `args`: an array or a value
pub data Args : Type 0 where
  single : Arg → Args
  many : List Arg → Args

abbrev pub args_list : Args → List Arg
args_list (single a) = a ∷ []
args_list (many as_) = as_

-- Array.isArray(args) ? args[0] : args
abbrev pub first_arg : Args → Arg
first_arg (single a) = a
first_arg (many []) = undefined
first_arg (many (a ∷ rest)) = a

-- xs.join(separator)
unfoldable pub joined_with : String → List String → String
joined_with sep [] = ""
joined_with sep (x ∷ []) = x
joined_with sep (x ∷ y ∷ ys) = str_append x (str_append sep (joined_with sep (y ∷ ys)))

-- Each apostrophe is doubled.
unfoldable pub escape_apostrophe : String → String
escape_apostrophe String.[] = String.[]
escape_apostrophe (String.◌∷◌ c s) =
    let rest = escape_apostrophe s in
    if nat_eq (code c) 39 then String.◌∷◌ c (String.◌∷◌ c rest) else String.◌∷◌ c rest

abbrev in_apostrophes : String → String
unfolding escape_apostrophe
in_apostrophes s = str_append "'" (str_append (escape_apostrophe s) "'")

-- `inlineLiteral`
unfoldable pub inline_literal : Arg → String
unfolding in_apostrophes
inline_literal undefined = "NULL"
inline_literal null = "NULL"
inline_literal (number shown finite) = shown
inline_literal (string s) = in_apostrophes s
inline_literal (other s) = in_apostrophes s

-- What `addValues` makes of an argument: undefined becomes null.
abbrev pub bound : Arg → Option Arg
bound undefined = none
bound null = none
bound (number shown finite) = some (number shown finite)
bound (string s) = some (string s)
bound (other s) = some (other s)

-- `VALID_DATE_TRUNC_GRANULARITIES` with `fmtMap`
abbrev pub formats : Dict String
formats =
    ("year", "%Y-01-01")
    ∷ ("month", "%Y-%m-01")
    ∷ ("day", "%Y-%m-%d")
    ∷ ("hour", "%Y-%m-%d %H:00:00")
    ∷ []

abbrev pub is_transact : String → Bool
is_transact dialect = dialect == "transactsql" || dialect == "tsql"

-- `renderDateTrunc`, of a valid granularity with its format for SQLite.
abbrev pub date_trunc : (dialect col granularity format : String) → String
date_trunc dialect col granularity format =
    if dialect == "sqlite"
    then joined_with "" ("strftime('" ∷ format ∷ "', " ∷ col ∷ ")" ∷ [])
    else if is_transact dialect
    then joined_with "" ("DATETRUNC(" ∷ granularity ∷ ", " ∷ col ∷ ")" ∷ [])
    else joined_with "" ("date_trunc('" ∷ granularity ∷ "', " ∷ col ∷ ")" ∷ [])

-- The granularity of the arguments, if it is a valid one: a text.
unfoldable pub trunc_text : (dialect col : String) → Args → Option String
unfolding joined_with
trunc_text dialect col (single (string g)) =
    Option.map (λ format. date_trunc dialect col g format) (lookup g formats)
trunc_text dialect col (single undefined) = none
trunc_text dialect col (single null) = none
trunc_text dialect col (single (number shown finite)) = none
trunc_text dialect col (single (other s)) = none
trunc_text dialect col (many as_) = none

-- The call of round; a precision that is no finite number is an error.
unfoldable pub round_text : (col : String) → Arg → Option String
unfolding joined_with
round_text col undefined = some (joined_with "" ("round(" ∷ col ∷ ")" ∷ []))
round_text col null = some (joined_with "" ("round(" ∷ col ∷ ")" ∷ []))
round_text col (number shown true) =
    some (joined_with "" ("round(" ∷ col ∷ ", " ∷ shown ∷ ")" ∷ []))
round_text col (number shown false) = none
round_text col (string s) = none
round_text col (other s) = none

-- The loops over the arguments: each is bound.
unfoldable pub bound_list : (separator : String) → List Arg → List (Token Arg)
bound_list sep [] = []
bound_list sep (a ∷ []) = value (bound a) ∷ []
bound_list sep (a ∷ b ∷ rest) = value (bound a) ∷ text sep ∷ bound_list sep (b ∷ rest)

-- A function with its column, the arguments and what stands behind them.
unfoldable pub around : (before separator after : String) → List Arg → List (Token Arg)
unfolding bound_list
around before sep after args = text before ∷ (bound_list sep args ++ text after ∷ [])

abbrev pub as_name : String → String
as_name alias = str_append " as " (quoted alias)

abbrev pub one_text : (alias : String) → Option String → Option (List (Token Arg))
one_text alias = Option.map (λ expr. text (str_append expr (as_name alias)) ∷ [])

-- `writeTransform`
unfoldable pub write_transform : (dialect alias fn col : String) → Args → Option (List (Token Arg))
unfolding trunc_text round_text around quoted
write_transform dialect alias fn col args =
    if fn == "dateTrunc"
    then one_text alias (trunc_text dialect col args)
    else if fn == "coalesce"
    then some (
        around (joined_with "" ("coalesce(" ∷ col ∷ ", " ∷ [])) ", "
          (str_append ")" (as_name alias)) (args_list args))
    else if fn == "round"
    then one_text alias (round_text col (first_arg args))
    else if fn == "abs"
    then one_text alias (some (joined_with "" ("abs(" ∷ col ∷ ")" ∷ [])))
    else if fn == "concat"
    then (if is_transact dialect
        then some (
            around (joined_with "" ("CONCAT(" ∷ col ∷ ", " ∷ [])) ", "
              (str_append ")" (as_name alias)) (args_list args))
        else some (around (str_append col " || ") " || " (as_name alias) (args_list args)))
    else none

-- `renderTransformForGroupBy`; its `params` are always empty.
unfoldable pub group_transform : (dialect fn col : String) → Args → Option String
unfolding trunc_text round_text joined_with inline_literal
group_transform dialect fn col args =
    let literals = map inline_literal (args_list args) in
    if fn == "dateTrunc"
    then trunc_text dialect col args
    else if fn == "coalesce"
    then some (
        str_append (joined_with "" ("coalesce(" ∷ col ∷ ", " ∷ []))
          (str_append (joined_with ", " literals) ")"))
    else if fn == "round"
    then round_text col (first_arg args)
    else if fn == "abs"
    then some (joined_with "" ("abs(" ∷ col ∷ ")" ∷ []))
    else if fn == "concat"
    then (if is_transact dialect
        then some (
            str_append (joined_with "" ("CONCAT(" ∷ col ∷ ", " ∷ []))
              (str_append (joined_with ", " literals) ")"))
        else some (str_append (str_append col " || ") (joined_with " || " literals)))
    else none
