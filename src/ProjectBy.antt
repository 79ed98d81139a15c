-- ===== src/ProjectBy.antt =====
-- core/operators/sql-project-by.ts: the select list of a request and its GROUP BY, where the build
-- has parameters and no view. What a column writes, and the lower case of names, are arguments; an
-- error of a build is `none`.
pub mod Transform
pub mod GroupBy
pub mod Inlined
mod Tests
use mathlib.Core.Option
use Prim.Native.String.{◌++◌ as str_append}
use Prim.Native.Char.{Char, code}
use vexnor.Base.{
  ℕ, String, Bool, true, false, ◌||◌, Option, none, some, List, [], ◌∷◌, ◌++◌, map, if◌then◌else◌,
  ◌==◌, nat_eq,
}
use vexnor.Base.Dict.{Dict, lookup, has}
use vexnor.Errors.{or_option}
use vexnor.FilterBy.{Token, text, value}
use vexnor.Ordering.{aggregations}
use vexnor.Ordering.Quote.{quoted}
use vexnor.Rendering.Values.{split_dots}
use vexnor.ProjectBy.Transform.{Arg, Args, joined_with, as_name, write_transform}

-- `sqlProjectByTransforms`
abbrev pub transforms : List String
transforms = "dateTrunc" ∷ "coalesce" ∷ "round" ∷ "abs" ∷ "concat" ∷ []

-- `SqlProjectByEntryValue`, or anything else. The column of a function is `none` where it is no text.
pub data EntryValue : Type 0 where
  same invalid : EntryValue
  renamed : String → EntryValue
  function : (fn : String) → (col : Option String) → Args → EntryValue

-- What a column's `build` writes, and that of its `tableAlias.columnName`.
pub record Column : Type 0 where
  pub build : List String
  pub raw : List String

-- The columns that `joinBy` put into the context, and those of the table.
pub record ProjectColumns : Type 0 where
  pub joined : Dict Column
  pub cols : Dict Column
  pub lower : String → String

-- The text behind the first dot, if there is one.
unfoldable pub after_dot : String → Option String
after_dot String.[] = none
after_dot (String.◌∷◌ c s) = let rest = after_dot s in if nat_eq (code c) b'.' then some s else rest

unfoldable pub last_of : String → List String → String
last_of s [] = s
last_of s (t ∷ ts) = last_of t ts

abbrev in_cols : ProjectColumns → Option String → Option Column
in_cols c none = none
in_cols c (some key) = lookup key c.cols

-- `resolveColumn`
unfoldable pub resolve_column : ProjectColumns → String → Option Column
unfolding after_dot
resolve_column c name = or_option (lookup name c.cols) (in_cols c (after_dot name))

abbrev is_none : {A : Type 0} → List A → Bool
is_none [] = true
is_none (x ∷ xs) = false

-- The column of a plain entry.
unfoldable pub plain_column : ProjectColumns → String → Option Column
unfolding resolve_column
plain_column c name =
    if is_none c.joined
    then resolve_column c name
    else or_option (lookup (c.lower name) c.joined) (resolve_column c name)

-- The column of a function, where a joined column may stand without its table.
unfoldable pub function_column : ProjectColumns → String → Option Column
unfolding resolve_column split_dots last_of
function_column c name =
    if is_none c.joined
    then resolve_column c name
    else or_option (lookup (c.lower name) c.joined) (
        or_option (lookup (c.lower (last_of name (split_dots name))) c.joined)
          (resolve_column c name))

abbrev pub as_texts : List String → List (Token Arg)
as_texts = map text

-- `writeColumn`
unfoldable pub write_column : ProjectColumns → (name alias : String) → Option (List (Token Arg))
unfolding plain_column quoted
write_column c name alias =
    Option.map
      (λ (col : Column).
        if alias == name then as_texts col.build else as_texts (col.raw ++ as_name alias ∷ []))
      (plain_column c name)

-- `writeAggregate`
unfoldable pub write_aggregate :
    ProjectColumns → (alias fn : String) → Option String → Option (List (Token Arg))
unfolding function_column quoted
write_aggregate c alias fn none = none
write_aggregate c alias fn (some ref) =
    Option.map (λ ts. as_texts (str_append fn "(" ∷ (ts ++ str_append ")" (as_name alias) ∷ [])))
      (if ref == "*"
        then some ("*" ∷ [])
        else Option.map (λ (col : Column). col.raw) (function_column c ref))

-- `renderColRef` of a function without a column
unfoldable pub group_text : ProjectColumns → Option String → Option String
unfolding function_column joined_with
group_text c none = none
group_text c (some ref) =
    Option.map (λ (col : Column). joined_with "" col.raw) (function_column c ref)

-- `renderColRef` of the select list, where a star stands for itself
unfoldable pub select_text : ProjectColumns → Option String → Option String
unfolding group_text
select_text c none = none
select_text c (some ref) = if ref == "*" then some "*" else group_text c (some ref)

abbrev pub at_text : {A : Type 0} → Option String → (String → Option A) → Option A
at_text none f = none
at_text (some s) f = f s

-- `writeFn`
unfoldable pub write_function :
    (dialect : String)
    → ProjectColumns
    → (alias fn : String) → Option String
    → Args
    → Option (List (Token Arg))
unfolding write_aggregate write_transform select_text
write_function dialect c alias fn ref args =
    if has fn aggregations
    then write_aggregate c alias fn ref
    else if has fn transforms
    then at_text (select_text c ref) (λ s. write_transform dialect alias fn s args)
    else none

-- One entry of `write`.
unfoldable pub project_entry :
    (dialect : String) → ProjectColumns → String → EntryValue → Option (List (Token Arg))
unfolding write_column write_function
project_entry dialect c alias same = write_column c alias alias
project_entry dialect c alias (renamed name) = write_column c name alias
project_entry dialect c alias (function fn ref args) = write_function dialect c alias fn ref args
project_entry dialect c alias invalid = none

abbrev pub append_both : {A : Type 0} → Option (List A) → Option (List A) → Option (List A)
append_both none ys = none
append_both (some xs) none = none
append_both (some xs) (some ys) = some (xs ++ ys)

-- The loop over the entries, behind the first.
unfoldable pub more_entries :
    (dialect : String) → ProjectColumns → Dict EntryValue → Option (List (Token Arg))
unfolding project_entry
more_entries dialect c [] = some []
more_entries dialect c ((alias, v) ∷ es) =
    append_both (Option.map (λ ts. text ", " ∷ ts) (project_entry dialect c alias v))
      (more_entries dialect c es)

-- All columns, where the request has no select.
unfoldable pub all_columns : (comma : List String) → Dict Column → List String
all_columns comma [] = []
all_columns comma ((key, col) ∷ cols) = comma ++ (col.build ++ all_columns (", " ∷ []) cols)

-- `write`; no entry stands for an absent parameter too.
unfoldable pub project :
    (dialect : String) → ProjectColumns → Dict EntryValue → Option (List (Token Arg))
unfolding more_entries all_columns
project dialect c [] = some (as_texts (all_columns [] c.cols))
project dialect c ((alias, v) ∷ es) =
    append_both (project_entry dialect c alias v) (more_entries dialect c es)
