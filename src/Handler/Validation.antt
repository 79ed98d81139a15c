-- ===== src/Handler/Validation.antt =====
-- core/query/sql-query-handler.ts: `validateParams`. The lists `fieldNames` of the parameters'
-- object rules are state, by the name of the parameter, for the code adds to them; each parameter
-- is taken to have a list of its own. `is_array` and `own_keys`, of the primitives that are
-- objects, are JavaScript's.
use vexnor.Base.{
  String, Bool, true, false, ◌&&◌, ◌||◌, Option, none, some, List, [], ◌∷◌, ◌++◌, if◌then◌else◌,
  ◌==◌,
}
use vexnor.Base.Dict.{Dict, lookup, insert}
use vexnor.Errors.{Outcome, returned, threw, other_error, Action, ◌>>◌, pure}
use vexnor.Rendering.{SqlParam, resolve}
use vexnor.Rendering.Values.{
  Value, undefined, null, context, primitive, object, Fields, end, field, get_field, resolve_path,
}

-- What the handler reads of a `SqlParam`: its name and default, whether it has rules and whether
-- these are for an object, and the verdicts of `validateParamValue` and `validateParamObject` on a
-- value, where the rules have the given list of names.
pub record HandlerParam (P : Type 0) : Type 0 where
  pub name : String
  pub default : Option (Value P)
  pub has_rules : Bool
  pub has_object_rules : Bool
  pub valid : Option (List String) → Value P → Bool
  pub conforms : List String → Value P → Bool

abbrev pub Names : Type 0
Names = Dict (List String)

-- extended.obj.fieldNames, with the aliases pushed
unfoldable pub extended : Option (List String) → List String → List String
extended none aliases = aliases
extended (some names) aliases = names ++ aliases

abbrev pub keys_of : {P : Type 0} → Fields P → List String
keys_of end = []
keys_of (field k v fs) = k ∷ keys_of fs

abbrev reported : Bool → Outcome (Unit {0})
reported true = returned tt
reported false = threw (other_error "PARAM_VALIDATION_FAILED")

abbrev not_empty : List String → Bool
not_empty [] = false
not_empty (x ∷ xs) = true

module _ {P : Type 0} (is_array : Fields P → Bool) (own_keys : P → List String) where
  -- `selectAliases`, where null is like no alias
  unfoldable pub aliases_of : Value P → List String
  aliases_of undefined = []
  aliases_of null = []
  aliases_of context = []
  aliases_of (primitive p) = own_keys p
  aliases_of (object fs) = if is_array fs then [] else keys_of fs

module _ {P : Type 0} where
  abbrev pub takes_aliases : HandlerParam P → List String → Bool
  takes_aliases p aliases =
      not_empty aliases && (p.name == "orderBy" || p.name == "havingBy") && p.has_object_rules

  -- The first branch of the loop, on the resolved value.
  unfoldable pub check_extended : HandlerParam P → List String → Value P → Action Names (Unit {0})
  unfolding extended
  check_extended p aliases undefined names = (returned tt, names)
  check_extended p aliases v names =
      let allowed = extended (lookup p.name names) aliases in
      (reported (p.conforms allowed v), insert p.name allowed names)

  abbrev with_rules : HandlerParam P → Option (List String) → Outcome (Value P) → Outcome (Unit {0})
  with_rules p names (threw e) = threw e
  with_rules p names (returned undefined) = returned tt
  with_rules p names (returned v) = if p.has_rules then reported (p.valid names v) else returned tt

  -- The other branch: p.resolve(inputParams), and p.validate(value).
  unfoldable pub check_own : HandlerParam P → Fields P → Action Names (Unit {0})
  unfolding resolve
  check_own p params names =
      let own = lookup p.name names in
      let sql_param : SqlParam P = record {
        name = p.name;
        default = p.default;
        valid = p.valid own;
      } in
      (with_rules p own (resolve sql_param params), names)

  -- The body of the loop.
  unfoldable pub check_param : List String → Fields P → HandlerParam P → Action Names (Unit {0})
  unfolding check_extended check_own
  check_param aliases params p =
      if takes_aliases p aliases
      then check_extended p aliases (resolve_path params p.name)
      else check_own p params

  unfoldable pub check_all :
      List String → Fields P → List (HandlerParam P) → Action Names (Unit {0})
  unfolding check_param
  check_all aliases params [] = pure tt
  check_all aliases params (p ∷ ps) = do check_param aliases params p; check_all aliases params ps

  -- `validateParams`; `none` is a query without parameters.
  unfoldable pub validate_params :
      (is_array : Fields P → Bool) (own_keys : P → List String)
      → Option (List (HandlerParam P))
      → Fields P
      → Action Names (Unit {0})
  unfolding check_all aliases_of
  validate_params is_array own_keys none params = pure tt
  validate_params is_array own_keys (some ps) params =
      check_all (aliases_of is_array own_keys (get_field "select" params)) params ps
