-- ===== src/FilterBy.antt =====
-- core/operators/sql-filter-by.ts: the conditions of a WHERE clause as tokens. What the columns
-- write, and JavaScript's lower case, are parameters. The proofs are in the modules below.
pub mod Bound
pub mod Printed
mod Tests
use mathlib.Core.Option
use vexnor.Base.{
  ℕ, zero, suc, ◌+◌, String, Bool, true, false, Option, none, some, List, [], ◌∷◌, ◌++◌, map,
  if◌then◌else◌, ltb, length, ◌==◌,
}
use vexnor.Base.Dict.{Dict, lookup, has}

-- A token of the built statement: `addStrings` makes texts, `addValues` values, where undefined
-- becomes null: `none`.
pub data Token (V : Type 0) : Type 0 where
  text : String → Token V
  value : Option V → Token V

-- `FilterOperator`
pub data Operator : Type 0 where
  eq not_eq gt ge lt le between in_list not_in like not_like is_null is_not_null : Operator

abbrev pub operators : Dict Operator
operators =
    ("=", eq)
    ∷ ("not", not_eq)
    ∷ (">", gt)
    ∷ (">=", ge)
    ∷ ("<", lt)
    ∷ ("<=", le)
    ∷ ("!=", not_eq)
    ∷ ("between", between)
    ∷ ("in", in_list)
    ∷ ("notIn", not_in)
    ∷ ("like", like)
    ∷ ("notLike", not_like)
    ∷ ("isNull", is_null)
    ∷ ("isNotNull", is_not_null)
    ∷ []

-- The value of a key in a condition: undefined, an array (its first element, if that is a text, and
-- the others), a primitive, or another object.
pub data Entry (V : Type 0) : Type 0 where
  undefined object : Entry V
  tuple : Option String → List V → Entry V
  bare : V → Entry V

-- `FilterCondition` and `FilterConditionList`.
mutual
  pub data Condition (V : Type 0) : Type 0 where
    or_group : Conditions V → Condition V
    entries : List (String × Entry V) → Condition V

  pub data Conditions (V : Type 0) : Type 0 where
    stop : Conditions V
    also : Condition V → Conditions V → Conditions V

-- A key of the legacy object form, where `or` makes a group as well.
pub data Field (V : Type 0) : Type 0 where
  column : String → Entry V → Field V
  or_field : Conditions V → Field V

-- The parameter: absent, an object or an array.
pub data Filter (V : Type 0) : Type 0 where
  absent : Filter V
  legacy : List (Field V) → Filter V
  conditions : Conditions V → Filter V

-- The columns: those that `joinBy` put into the context, those allowed, and the table's, each with
-- the texts that its `build` writes.
pub record Columns : Type 0 where
  pub joined : Dict (List String)
  pub allowed : List String
  pub cols : Dict (List String)
  pub lower : String → String

-- The two lookups of `writeEntry`; `none` is "Column not found".
unfoldable pub find_column : Columns → String → Option (List String)
find_column c key =
    if ltb 0 (length c.joined)
    then lookup (c.lower key) c.joined
    else if has key c.allowed
    then lookup key c.cols
    else none

abbrev pub operator_of : Option String → Option Operator
operator_of none = none
operator_of (some name) = lookup name operators

module _ {V : Type 0} where
  abbrev pub texts : List String → List (Token V)
  texts = map text

  abbrev pub first : List V → Option V
  first [] = none
  first (x ∷ xs) = some x

  abbrev pub compare_to : List String → String → List V → List (Token V)
  compare_to col op args = texts col ++ text op ∷ value (first args) ∷ []

  -- The arguments of a list behind the first.
  unfoldable pub write_more : List V → List (Token V)
  write_more [] = text ")" ∷ []
  write_more (x ∷ xs) = text ", " ∷ value (some x) ∷ write_more xs

  -- `writeOp`
  unfoldable pub write_op : List String → Operator → List V → List (Token V)
  unfolding write_more
  write_op col eq args = compare_to col " = " args
  write_op col not_eq args = compare_to col " <> " args
  write_op col gt args = compare_to col " > " args
  write_op col ge args = compare_to col " >= " args
  write_op col lt args = compare_to col " < " args
  write_op col le args = compare_to col " <= " args
  write_op col between [] = texts col ++ text " is null" ∷ []
  write_op col between (x ∷ xs) =
      texts col ++ text " between " ∷ value (some x) ∷ text " and " ∷ value (first xs) ∷ []
  write_op col in_list [] = text "1=0" ∷ []
  write_op col in_list (x ∷ xs) = texts col ++ text " in (" ∷ value (some x) ∷ write_more xs
  write_op col not_in [] = []
  write_op col not_in (x ∷ xs) = texts col ++ text " not in (" ∷ value (some x) ∷ write_more xs
  write_op col like args = compare_to col " like " args
  write_op col not_like args = compare_to col " not like " args
  write_op col is_null args = texts col ++ text " is null" ∷ []
  write_op col is_not_null args = texts col ++ text " is not null" ∷ []

  abbrev pub with_operator : List String → List V → Option Operator → Option (List (Token V))
  unfolding write_op
  with_operator col args none = none
  with_operator col args (some op) = some (write_op col op args)

  -- The rest of `writeEntry`, at a column. `none` stands for a `SqlBuildError`.
  unfoldable pub write_at : List String → Entry V → Option (List (Token V))
  write_at col undefined = none
  write_at col object = none
  write_at col (bare v) = some (texts col ++ text " = " ∷ value (some v) ∷ [])
  write_at col (tuple name args) = with_operator col args (operator_of name)

  abbrev pub at_column : Entry V → Option (List String) → Option (List (Token V))
  unfolding write_at
  at_column e none = none
  at_column e (some col) = write_at col e

  -- `writeEntry`
  unfoldable pub write_entry : Columns → String → Entry V → Option (List (Token V))
  unfolding find_column
  write_entry c key e = at_column e (find_column c key)

-- `joiner`
pub data Joiner : Type 0 where
  by_and by_or : Joiner

abbrev pub joiner_text : Joiner → String
joiner_text by_and = " and "
joiner_text by_or = " or "

abbrev pub is_undefined : {V : Type 0} → Entry V → Bool
is_undefined undefined = true
is_undefined object = false
is_undefined (tuple name args) = false
is_undefined (bare v) = false

-- What a loop wrote, and its `emitted`.
abbrev pub Written : Type 0 → Type 0
Written V = Option (List (Token V) × ℕ)

module _ {V : Type 0} where
  -- `if (emitted > 0) context.addStrings(…)`
  abbrev pub separator : Joiner → ℕ → List (Token V)
  separator j zero = []
  separator j (suc n) = text (joiner_text j) ∷ []

  abbrev pub one_more : List (Token V) → ℕ → Option (List (Token V)) → Written V
  one_more before n none = none
  one_more before n (some ts) = some (before ++ ts, suc n)

  abbrev pub then_write : Written V → (ℕ → Written V) → Written V
  then_write none next = none
  then_write (some (ts, n)) next =
      Option.map (λ (r : List (Token V) × ℕ). (ts ++ r.0, r.1)) (next n)

  -- The loop over the keys of one condition.
  unfoldable pub write_entries : Columns → Joiner → ℕ → List (String × Entry V) → Written V
  unfolding write_entry
  write_entries c j n [] = some ([], n)
  write_entries c j n ((key, e) ∷ es) = elim (is_undefined e) [
    | true ↦ write_entries c j n es
    | false ↦
        then_write (one_more (separator j n) n (write_entry c key e)) (λ m. write_entries c j m es)
  ]

  abbrev pub in_parentheses : Written V → Option (List (Token V))
  in_parentheses none = none
  in_parentheses (some (ts, n)) = some (text "(" ∷ ts ++ text ")" ∷ [])

-- `writeConditions`
unfoldable mutual
  unfolding write_entries

  pub write_conditions : {V : Type 0} → Columns → Joiner → ℕ → Conditions V → Written V
  write_conditions c j n stop = some ([], n)
  write_conditions c j n (also x xs) =
      then_write (write_condition c j n x) (λ m. write_conditions c j m xs)

  pub write_condition : {V : Type 0} → Columns → Joiner → ℕ → Condition V → Written V
  write_condition c j n (or_group stop) = some ([], n)
  write_condition c j n (or_group (also x xs)) =
      one_more (separator j n) n (in_parentheses (write_conditions c by_or 0 (also x xs)))
  write_condition c j n (entries es) = write_entries c j n es

module _ {V : Type 0} where
  -- `legacyToConditions`
  unfoldable pub legacy_to_conditions : List (Field V) → Conditions V
  legacy_to_conditions [] = stop
  legacy_to_conditions (or_field cs ∷ fs) = also (or_group cs) (legacy_to_conditions fs)
  legacy_to_conditions (column key e ∷ fs) =
      let rest = legacy_to_conditions fs in
      if is_undefined e then rest else also (entries ((key, e) ∷ [])) rest

  -- `if (this.prefix) context.addStrings(this.prefix)`, and the same for the suffix
  abbrev pub affix : String → List (Token V)
  affix s = if s == "" then [] else text s ∷ []

  unfoldable pub write_list :
      Columns → (prefix suffix : String) → Conditions V → Option (List (Token V))
  unfolding write_conditions
  write_list c prefix suffix stop = some []
  write_list c prefix suffix (also x xs) =
      Option.map (λ (r : List (Token V) × ℕ). affix prefix ++ r.0 ++ affix suffix)
        (write_conditions c by_and 0 (also x xs))

  -- `write`, where the build has parameters
  unfoldable pub write : Columns → (prefix suffix : String) → Filter V → Option (List (Token V))
  unfolding legacy_to_conditions write_list
  write c prefix suffix absent = some []
  write c prefix suffix (legacy fs) = write_list c prefix suffix (legacy_to_conditions fs)
  write c prefix suffix (conditions cs) = write_list c prefix suffix cs
