-- ===== src/FilterBy/Tests.antt =====
-- Filters on which the theorems are applied, and what a list without values does to a filter.
use mathlib.Core.Option
use vexnor.Base.{ℕ, ◌≡◌, refl, some, List, [], ◌∷◌}
use vexnor.Base.Dict.{lookup, has}
use vexnor.FilterBy.{
  Token, text, value, tuple, bare, Conditions, stop, also, or_group, entries, conditions, Columns,
  by_and, find_column, write_op, with_operator, write_at, at_column, write_entry, write_entries,
  write_conditions, write_list, write,
}
use vexnor.FilterBy.Printed.{joined, pieces, write_conditions-joined}

abbrev users : Columns
users = record {
  joined = [];
  allowed = "email" ∷ "status" ∷ [];
  cols = ("email", "u.email" ∷ []) ∷ ("status", "u.status" ∷ []) ∷ [];
  lower = λ s. s;
}

-- [{ status: 1 }, { or: [{ email: ["like", 2] }, { email: ["isNull"] }] }]
abbrev active : Conditions ℕ
active = also (entries (("status", bare 1) ∷ [])) (
    also
      (or_group (
        also (entries (("email", tuple (some "like") (2 ∷ [])) ∷ []))
          (also (entries (("email", tuple (some "isNull") []) ∷ [])) stop)))
      stop)

active_test :
    write users "where " "" (conditions active)
    ≡ some (
        text "where "
        ∷ text "u.status"
        ∷ text " = "
        ∷ value (some 1)
        ∷ text " and "
        ∷ text "("
        ∷ text "u.email"
        ∷ text " like "
        ∷ value (some 2)
        ∷ text " or "
        ∷ text "u.email"
        ∷ text " is null"
        ∷ text ")"
        ∷ [])
unfolding write write_list write_conditions write_entries write_entry find_column at_column write_at
    with_operator write_op lookup has
active_test = refl

-- [{ status: 1 }, { email: ["notIn"] }]: a joiner with nothing behind it.
not_in_nothing_test :
    write {V = ℕ} users "" "" (
      conditions (
        also
          (entries (("status", bare 1) ∷ []))
          (also (entries (("email", tuple (some "notIn") []) ∷ [])) stop)))
    ≡ some (text "u.status" ∷ text " = " ∷ value (some 1) ∷ text " and " ∷ [])
unfolding write write_list write_conditions write_entries write_entry find_column at_column write_at
    with_operator write_op lookup has
not_in_nothing_test = refl

-- [{ or: [{}] }]: a pair of parentheses with nothing between them.
empty_group_test :
    write {V = ℕ} users "" "" (conditions (also (or_group (also (entries []) stop)) stop))
    ≡ some (text "(" ∷ text ")" ∷ [])
unfolding write write_list write_conditions write_entries
empty_group_test = refl

write_conditions-joined_example :
    Option.map (λ (r : List (Token ℕ) × ℕ). r.0) (write_conditions users by_and 0 active)
    ≡ Option.map (joined by_and) (pieces users active)
write_conditions-joined_example = write_conditions-joined users by_and active
