-- ===== src/Rendering.antt =====
-- core/query/sql-query.ts: `getSql` over the tokens of a built query, with
-- core/query/default-param-format.ts, the resolution of parameters (core/query/sql-param.ts,
-- core/query/params/resolve-path.ts) and lib/primitive.ts. The formatter, which runs over the text,
-- is not called here. `P` is the type of primitives; whether a value is valid is an argument.
mod Tests
pub mod Values
pub mod Bound
use Prim.Native.String.{◌++◌ as str_append}
use vexnor.Base.{
  ℕ, ◌+◌, String, Bool, ◌||◌, Option, none, some, List, [], ◌∷◌, ◌++◌, if◌then◌else◌, length, ◌==◌,
}
use vexnor.Base.Digits.{decimal}
use vexnor.Base.Dict.{Dict, lookup}
use vexnor.Errors.{Outcome, returned, threw, Thrown, other_error}
use vexnor.BuildContext.Scope.{BuildToken, text, param, value, operator}
use vexnor.Rendering.Values.{
  Value, undefined, null, Fields, get_field, resolve_path, or_null, is_context, is_primitive,
}

-- `SqlParamFormat`
abbrev pub ParamFormat : Type 0
ParamFormat = (name : Option String) → (index : ℕ) → String

-- `getDefaultParamFormat`
unfoldable pub default_param_format : (dialect : String) → ParamFormat
unfolding decimal
default_param_format dialect name index =
    if dialect == "transactsql" || dialect == "tsql"
    then str_append "@param_" (decimal index)
    else if dialect == "postgresql" || dialect == "duckdb"
    then str_append "$" (decimal (index + 1))
    else "?"

-- What `SqlParam` keeps to resolve its value. `valid` is `isValid`.
pub record SqlParam (P : Type 0) : Type 0 where
  pub name : String
  pub default : Option (Value P)
  pub valid : Value P → Bool

-- The texts and the values so far.
abbrev pub Sql : Type 0 → Type 0
Sql P = List String × List (Value P)

module _ {P : Type 0} where
  abbrev pub fallback : Option (Value P) → Outcome (Value P) → Outcome (Value P)
  fallback (some d) otherwise = returned d
  fallback none otherwise = otherwise

  -- `valueOrDefault`
  unfoldable pub value_or_default : SqlParam P → Value P → Outcome (Value P)
  value_or_default p undefined = fallback p.default (returned undefined)
  value_or_default p v =
      if p.valid v then returned v else fallback p.default (threw (other_error "SqlBuildError"))

  -- `resolve`
  unfoldable pub resolve : SqlParam P → Fields P → Outcome (Value P)
  unfolding value_or_default resolve_path
  resolve p params = value_or_default p (resolve_path params p.name)

  abbrev pub or_null_outcome : Outcome (Value P) → Outcome (Value P)
  or_null_outcome (threw e) = threw e
  or_null_outcome (returned v) = returned (or_null v)

  -- isContextValue(rawValue) ? null : (sqlParam.resolve(args.params) ?? null)
  unfoldable pub param_value : SqlParam P → String → Fields P → Outcome (Value P)
  unfolding resolve
  param_value p name params =
      if is_context (get_field name params)
      then returned null
      else or_null_outcome (resolve p params)

  -- The value of a parameter token, with its two early errors.
  unfoldable pub bound_param : Dict (SqlParam P) → Option (Fields P) → String → Outcome (Value P)
  unfolding param_value
  bound_param declared none name = threw (other_error "SqlBuildError")
  bound_param declared (some params) name = elim (lookup name declared) [
    | none ↦ threw (other_error "Param token not found")
    | some p ↦ param_value p name params
  ]

  -- tokens.push(paramFormat({ name, index: values.length })); values.push(value)
  abbrev pub push_value :
      ParamFormat
      → Option String
      → Outcome (Value P)
      → (Sql P → Outcome (Sql P))
      → Sql P
      → Outcome (Sql P)
  push_value format name (threw e) rest r = threw e
  push_value format name (returned v) rest r =
      rest (r.0 ++ format name (length r.1) ∷ [], r.1 ++ v ∷ [])

  abbrev pub checked : Value P → Outcome (Value P)
  checked v = if is_primitive v then returned v else threw (other_error "SqlBuildError")

  -- The loop of `getSql`, from the texts and values so far.
  unfoldable pub render :
      ParamFormat
      → Dict (SqlParam P)
      → Option (Fields P)
      → List (BuildToken (Value P))
      → Sql P
      → Outcome (Sql P)
  unfolding bound_param
  render format declared params [] r = returned r
  render format declared params (text t ∷ ts) r =
      render format declared params ts (r.0 ++ t ∷ [], r.1)
  render format declared params (value v ∷ ts) r =
      push_value format none (checked v) (render format declared params ts) r
  render format declared params (param name array ∷ ts) r =
      push_value format (some name) (bound_param declared params name)
        (render format declared params ts) r
  render format declared params (operator type ∷ ts) r = threw (other_error "SqlBuildError")

-- tokens.join("")
unfoldable pub join_texts : List String → String
join_texts [] = ""
join_texts (s ∷ ss) = str_append s (join_texts ss)

module _ {P : Type 0} where
  abbrev pub joined : Outcome (List String × List (Value P)) → Outcome (String × List (Value P))
  unfolding join_texts
  joined (threw e) = threw e
  joined (returned r) = returned (join_texts r.0, r.1)

  -- `getSql`, behind the build, less the formatter: the text and the values.
  unfoldable pub get_sql :
      ParamFormat
      → Dict (SqlParam P)
      → Option (Fields P)
      → List (BuildToken (Value P))
      → Outcome (String × List (Value P))
  unfolding render joined
  get_sql format declared params tokens = joined (render format declared params tokens ([], []))
