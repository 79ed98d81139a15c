-- ===== src/BuildContext/AliasNames.antt =====
-- core/schema/sql-table-identity.ts, and the names that `getAlias` of
-- core/builder/sql-build-context.ts makes. A name is a text of code points.
use Prim.Native.Char.{Char, code}
use Prim.Native.String.{[], ◌∷◌, ◌++◌}
use text.Mathlib.TextLemmas.{nil-append, cons-append}
use vexnor.Base.{
  ℕ, String, Bool, true, false, Option, none, some, if◌then◌else◌, nat_eq, ◌≡◌, refl, Bool-cases,
  inl, inr,
}
use vexnor.Base.Digits.{decimal, read_decimal, read_decimal-decimal}
use vexnor.Errors.{or_else}

-- `SqlTableIdentity`
pub record TableIdentity : Type 0 where
  pub schema : Option String
  pub name : String
  pub alias : Option String
  pub out : Bool

-- `getTableId`
unfoldable pub get_table_id : TableIdentity → String
get_table_id t = or_else t.schema "-" ++ ("." ∷ or_else t.alias t.name)

abbrev is_underscore : Char → Bool
is_underscore c = nat_eq (code c) b'_'

-- name.split("_").map((z) => z[0]).join(""), where the Boolean says that a part begins here
unfoldable pub initials : (at_start : Bool) → String → String
initials at_start [] = []
initials true (c ∷ s) =
    let rest = initials false s in
    let skipped = initials true s in if is_underscore c then skipped else c ∷ rest
initials false (c ∷ s) =
    let rest = initials false s in
    let next = initials true s in if is_underscore c then next else rest

-- `${token}_${this._aliasCounter++}`
unfoldable pub new_alias : (name : String) (count : ℕ) → String
unfolding initials decimal
new_alias name count = initials true name ++ ("_" ∷ decimal count)

-- A text that is there and not empty.
abbrev pub truthy : Option String → Option String
truthy none = none
truthy (some []) = none
truthy (some (c ∷ s)) = some (c ∷ s)

-- The number behind the first underscore.
unfoldable pub alias_number : String → ℕ
alias_number [] = 0
alias_number (c ∷ s) = if is_underscore c then read_decimal s else alias_number s

number_behind :
    (at_start : Bool) (name rest : String)
    → alias_number (initials at_start name ++ ("_" ∷ rest)) ≡ read_decimal rest
unfolding alias_number initials
number_behind at_start [] rest = rw nil-append refl
number_behind true (c ∷ s) rest = elim (Bool-cases (is_underscore c)) [
  | inl e ↦ rw e (number_behind true s rest)
  | inr e ↦ rw e (rw cons-append (rw e (number_behind false s rest)))
]
number_behind false (c ∷ s) rest = elim (Bool-cases (is_underscore c)) [
  | inl e ↦ rw e (number_behind true s rest)
  | inr e ↦ rw e (number_behind false s rest)
]

pub alias_number-new_alias :
    (name : String) (count : ℕ) → alias_number (new_alias name count) ≡ count
unfolding new_alias
alias_number-new_alias name count =
    rw (number_behind true name (decimal count), read_decimal-decimal count)
