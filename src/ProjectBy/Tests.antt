-- ===== src/ProjectBy/Tests.antt =====
-- Runs of core/operators/sql-project-by.ts on small selects.
use mathlib.Core.Option
use Prim.Native.String.{◌++◌ as str_append}
use vexnor.Base.{◌≡◌, refl, some, [], ◌∷◌}
use vexnor.Base.Dict.{Dict, lookup, has}
use vexnor.FilterBy.{text, value}
use vexnor.ProjectBy.{EntryValue, same, function, ProjectColumns, project}
use vexnor.ProjectBy.GroupBy.{group_by}
use vexnor.ProjectBy.Transform.{Arg, string, single}

abbrev users : ProjectColumns
users = record {
  joined = [];
  cols =
      ("email", record { build = "u_1" ∷ "." ∷ "email" ∷ []; raw = "u_1" ∷ "." ∷ "email" ∷ [] })
      ∷ (
        "amount",
        record { build = "u_1" ∷ "." ∷ "amount" ∷ []; raw = "u_1" ∷ "." ∷ "amount" ∷ [] },
      )
      ∷ [];
  lower = λ s. s;
}

abbrev select : Dict EntryValue
select =
    ("email", same)
    ∷ ("total", function "sum" (some "amount") (single Arg.undefined))
    ∷ ("name", function "coalesce" (some "email") (single (string "none")))
    ∷ []

project_test :
    project "postgresql" users select
    ≡ some (
        text "u_1"
        ∷ text "."
        ∷ text "email"
        ∷ text ", "
        ∷ text "sum("
        ∷ text "u_1"
        ∷ text "."
        ∷ text "amount"
        ∷ text ") as \"total\""
        ∷ text ", "
        ∷ text "coalesce(u_1.email, "
        ∷ value (some (string "none"))
        ∷ text ") as \"name\""
        ∷ [])
unfolding project lookup has
project_test = refl

group_by_test :
    group_by "postgresql" users select
    ≡ some ("group by " ∷ "u_1.email" ∷ ", " ∷ "coalesce(u_1.email, 'none')" ∷ [])
unfolding group_by lookup has
group_by_test = refl

-- A question mark in an argument is lost in GROUP BY.
mark_test :
    group_by "postgresql" users (
      ("total", function "sum" (some "amount") (single Arg.undefined))
      ∷ ("name", function "coalesce" (some "email") (single (string "who?")))
      ∷ [])
    ≡ some ("group by " ∷ "coalesce(u_1.email, 'who" ∷ "')" ∷ [])
unfolding group_by lookup has
mark_test = refl
