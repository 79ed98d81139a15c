-- ===== src/ProjectBy/GroupBy.antt =====
-- core/operators/sql-project-by.ts: `SqlProjectionGroupBy`, where the build has parameters.
use Prim.Native.Char.{code}
use vexnor.Base.{
  String, Bool, true, false, ◌||◌, not, ◌&&◌, Option, none, some, List, [], ◌∷◌, if◌then◌else◌,
  ◌==◌, nat_eq,
}
use vexnor.Base.Dict.{Dict, has}
use vexnor.Ordering.{aggregations}
use vexnor.ProjectBy.{
  EntryValue, same, invalid, renamed, function, Column, ProjectColumns, transforms, plain_column,
  group_text, append_both,
}
use vexnor.ProjectBy.Transform.{Args, joined_with, group_transform}
use vexnor.Rendering.Values.{add_first}

-- What the loop over the entries gathers: whether one is an aggregate, the plain columns, and the
-- transforms.
pub record Gathered : Type 0 where
  pub aggregate : Bool
  pub plain : List String
  pub calls : List String

abbrev pub with_plain : Option Column → Option Gathered → Option Gathered
unfolding joined_with
with_plain none rest = none
with_plain (some col) none = none
with_plain (some col) (some g) = some (record g { plain = joined_with "" col.build ∷ g.plain })

abbrev pub with_call : Option String → Option Gathered → Option Gathered
with_call none rest = rest
with_call (some expr) none = none
with_call (some expr) (some g) = some (record g { calls = expr ∷ g.calls })

abbrev pub with_aggregate : Option Gathered → Option Gathered
with_aggregate none = none
with_aggregate (some g) = some (record g { aggregate = true })

-- `renderTransformForGroupBy`, whose column may not be found
unfoldable pub with_transform :
    (dialect fn : String) → Option String → Args → Option Gathered → Option Gathered
unfolding group_transform
with_transform dialect fn none args rest = none
with_transform dialect fn (some col) args rest =
    with_call (group_transform dialect fn col args) rest

-- The loop over the entries.
unfoldable pub gather : (dialect : String) → ProjectColumns → Dict EntryValue → Option Gathered
unfolding plain_column group_text with_transform
gather dialect c [] = some (record { aggregate = false; plain = []; calls = [] })
gather dialect c ((alias, same) ∷ es) = with_plain (plain_column c alias) (gather dialect c es)
gather dialect c ((alias, renamed name) ∷ es) =
    with_plain (plain_column c name) (gather dialect c es)
gather dialect c ((alias, invalid) ∷ es) = none
gather dialect c ((alias, function fn ref args) ∷ es) =
    let rest = gather dialect c es in
    if has fn aggregations
    then with_aggregate rest
    else if has fn transforms
    then with_transform dialect fn (group_text c ref) args rest
    else rest

-- expr.split("?")
unfoldable pub split_marks : String → List String
split_marks String.[] = String.[] ∷ []
split_marks (String.◌∷◌ c s) =
    let rest = split_marks s in if nat_eq (code c) b'?' then String.[] ∷ rest else add_first c rest

-- The texts, none of which may be empty.
unfoldable pub write_texts : List String → Option (List String)
write_texts [] = some []
write_texts (s ∷ ss) =
    let rest = write_texts ss in if s == "" then none else append_both (some (s ∷ [])) rest

-- The two loops that write; `comma` is what stands before the next text.
unfoldable pub write_plain : (comma : List String) → List String → Option (List String)
unfolding write_texts
write_plain comma [] = some []
write_plain comma (s ∷ ss) =
    append_both (append_both (some comma) (write_texts (s ∷ []))) (write_plain (", " ∷ []) ss)

unfoldable pub write_calls : (comma : List String) → List String → Option (List String)
unfolding write_texts split_marks
write_calls comma [] = some []
write_calls comma (s ∷ ss) =
    append_both (append_both (some comma) (write_texts (split_marks s)))
      (write_calls (", " ∷ []) ss)

abbrev is_none : List String → Bool
is_none [] = true
is_none (x ∷ xs) = false

abbrev comma_after : List String → List String
comma_after xs = if is_none xs then [] else ", " ∷ []

abbrev write_gathered : Option Gathered → Option (List String)
unfolding write_plain write_calls
write_gathered none = none
write_gathered (some g) =
    if not g.aggregate || (is_none g.plain && is_none g.calls)
    then some []
    else append_both (some ("group by " ∷ []))
        (append_both (write_plain [] g.plain) (write_calls (comma_after g.plain) g.calls))

-- `write`; no entry stands for an absent parameter too.
unfoldable pub group_by :
    (dialect : String) → ProjectColumns → Dict EntryValue → Option (List String)
unfolding gather write_gathered
group_by dialect c [] = some []
group_by dialect c (e ∷ es) = write_gathered (gather dialect c (e ∷ es))
