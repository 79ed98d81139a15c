-- ===== src/BuildContext/Aliases.antt =====
-- core/builder/sql-build-context.ts: `setAlias` and `getAlias`.
use vexnor.Base.{ℕ, ◌+◌, String, Bool, true, false, Option, none, some, List, [], ◌∷◌}
use vexnor.Base.Dict.{Dict, lookup, insert}
use vexnor.Errors.{Outcome, returned, threw, other_error, Action}
use vexnor.BuildContext.AliasNames.{TableIdentity, get_table_id, new_alias, truthy}
use vexnor.BuildContext.Keywords.{pop}

-- `_tableAliasStack`, the top in front, and `_aliasCounter`
pub record Aliases : Type 0 where
  pub stack : List (Dict String)
  pub counter : ℕ

-- The statements of `setAlias` behind its early return, with the identifier of the table.
abbrev pub set_in : String → String → List (Dict String) → Action Aliases (Unit {0})
set_in id alias [] s = (threw (other_error "'this.tableAliasStack' is required."), s)
set_in id alias (m ∷ ms) s = (returned tt, record s { stack = insert id alias m ∷ ms })

abbrev pub set_some : String → Option String → Action Aliases (Unit {0})
set_some id none s = (returned tt, s)
set_some id (some alias) s = set_in id alias s.stack s

-- `setAlias`
unfoldable pub set_alias : TableIdentity → Option String → Action Aliases (Unit {0})
unfolding get_table_id
set_alias t alias s = set_some (get_table_id t) (truthy alias) s

-- The loop over the outer scopes, from the inner to the outer.
unfoldable pub outer_alias : String → List (Dict String) → Option String
outer_alias id [] = none
outer_alias id (m ∷ ms) = elim (lookup id m) [ none ↦ outer_alias id ms | some alias ↦ some alias ]

abbrev pub found_outside : Option String → Outcome String
found_outside none = threw (other_error "SqlBuildError")
found_outside (some alias) = returned alias

-- The alias that the scope has, or else the new one, which is set.
abbrev pub found_or_set :
    Option String
    → (id result : String) → Dict String
    → List (Dict String)
    → Aliases
    → String × Aliases
found_or_set (some alias) id result m ms s = (alias, s)
found_or_set none id result m ms s =
    (result, record { stack = insert id result m ∷ ms; counter = s.counter + 1 })

abbrev pub alias_in : (id result : String) → List (Dict String) → Aliases → String × Aliases
alias_in id result [] s = (result, record s { counter = s.counter + 1 })
alias_in id result (m ∷ ms) s = found_or_set (lookup id m) id result m ms s

-- `getAlias`, behind its first return
abbrev pub alias_of : TableIdentity → Bool → Action Aliases String
unfolding get_table_id outer_alias new_alias
alias_of t true s = (found_outside (outer_alias (get_table_id t) (pop s.stack)), s)
alias_of t false s =
    let r = alias_in (get_table_id t) (new_alias t.name s.counter) s.stack s in (returned r.0, r.1)

abbrev pub alias_or : Option String → Action Aliases String → Action Aliases String
alias_or (some alias) rest s = (returned alias, s)
alias_or none rest s = rest s

-- `getAlias`
unfoldable pub get_alias : TableIdentity → Action Aliases String
unfolding alias_of
get_alias t s = alias_or (truthy t.alias) (alias_of t t.out) s
