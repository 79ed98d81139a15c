-- ===== src/Rendering/Tests.antt =====
-- A statement with a value and two parameters.
use vexnor.Base.{◌≡◌, refl, ℕ, String, true, false, none, some, List, [], ◌∷◌}
use vexnor.Base.Digits.{decimal, digits}
use vexnor.Base.Dict.{Dict, lookup}
use vexnor.Errors.{returned}
use vexnor.BuildContext.Scope.{BuildToken, text, param, value}
use vexnor.Rendering.Values.{
  Value, primitive, null, object, Fields, end, field, get_field, walk, resolve_path, split_dots,
}
use vexnor.Rendering.{
  SqlParam, default_param_format, value_or_default, resolve, param_value, bound_param, render,
  join_texts, get_sql,
}
use vexnor.Rendering.Bound.{Renders, get_sql-Renders}

abbrev accepts : String → SqlParam ℕ
accepts name = record { name = name; default = none; valid = λ v. true }

abbrev declared : Dict (SqlParam ℕ)
declared = ("page.size", accepts "page.size") ∷ ("id", accepts "id") ∷ []

abbrev given : Fields ℕ
given = field "page" (object (field "size" (primitive 20) end)) end

abbrev statement : List (BuildToken (Value ℕ))
statement =
    text "where a = "
    ∷ value (primitive 7)
    ∷ text " and b = "
    ∷ param "id" false
    ∷ text " limit "
    ∷ param "page.size" false
    ∷ []

statement_sql :
    get_sql (default_param_format "duckdb") declared (some given) statement
    ≡ returned ("where a = $1 and b = $2 limit $3", primitive 7 ∷ null ∷ primitive 20 ∷ [])
unfolding get_sql render bound_param param_value resolve value_or_default resolve_path walk
    split_dots get_field lookup default_param_format decimal digits join_texts
statement_sql = refl

get_sql-Renders_example :
    (texts : List String) × ("where a = $1 and b = $2 limit $3" ≡ join_texts texts)
    × Renders
        (default_param_format "duckdb")
        declared
        (some given)
        0
        statement
        texts
        (primitive 7 ∷ null ∷ primitive 20 ∷ [])
get_sql-Renders_example =
    get_sql-Renders (default_param_format "duckdb") declared (some given) statement
      "where a = $1 and b = $2 limit $3" (primitive 7 ∷ null ∷ primitive 20 ∷ []) statement_sql
