-- ===== src/BuildContext/AliasFresh.antt =====
-- The aliases that `getAlias` gives to the tables of one scope.
use Prim.Native.Nat.{◌<◌}
use vexnor.Base.{
  ◌≡◌, ◌⊎◌, refl, sym, ap, ◌∙◌, inl, inr, ℕ, ◌+◌, String, Bool, true, false, Option, none, some,
  List, [], ◌∷◌, arith, eq_refl, Option-cases,
}
use vexnor.Base.Dict.{Dict, lookup, insert, lookup-insert, lookup-insert_cases}
use vexnor.Errors.{returned}
use vexnor.BuildContext.AliasNames.{
  TableIdentity, get_table_id, new_alias, truthy, alias_number, alias_number-new_alias,
}
use vexnor.BuildContext.Aliases.{Aliases, alias_in, alias_of, alias_or, get_alias}

-- The map of the innermost scope.
abbrev pub scope_of : List (Dict String) → Dict String
scope_of [] = []
scope_of (m ∷ ms) = m

-- The tables that the scope has beyond those of an earlier state have aliases numbered below the
-- counter, and no two of them have one alias.
pub record Separate (before : Dict String) (s : Aliases) : Type 0 where
  pub below :
      (id alias : String)
      → lookup id before ≡ none
      → lookup id (scope_of s.stack) ≡ some alias
      → alias_number alias < s.counter
  pub apart :
      (id other alias : String)
      → lookup id before ≡ none
      → lookup other before ≡ none
      → lookup id (scope_of s.stack) ≡ some alias
      → lookup other (scope_of s.stack) ≡ some alias
      → id ≡ other

module _ (before : Dict String) (name id : String) (m : Dict String) (ms : List (Dict String))
    (c : ℕ) where
  abbrev old : Aliases
  old = record { stack = m ∷ ms; counter = c }

  abbrev new : Aliases
  new = record { stack = insert id (new_alias name c) m ∷ ms; counter = c + 1 }

  new-Separate : Separate before old → Separate before new
  unfolding insert
  new-Separate v = record {
    below = λ i a p h. elim (lookup-insert_cases id i (new_alias name c) a m h) [
      | inl (e, q) ↦ omega (arith, ap alias_number q ∙ alias_number-new_alias name c)
      | inr q ↦ omega (arith, v.below i a p q)
    ];
    apart = λ i j a p q h k.
        go i j a p q (lookup-insert_cases id i (new_alias name c) a m h)
          (lookup-insert_cases id j (new_alias name c) a m k);
  }
    where
      go :
          (i j a : String)
          → lookup i before ≡ none
          → lookup j before ≡ none
          → ((id ≡ i) × (a ≡ new_alias name c)) ⊎ (lookup i m ≡ some a)
          → ((id ≡ j) × (a ≡ new_alias name c)) ⊎ (lookup j m ≡ some a)
          → i ≡ j
      go i j a p q (inl (e, x)) (inl (f, y)) = sym e ∙ f
      go i j a p q (inl (e, x)) (inr k) =
          absurd (omega (arith, v.below j a q k, ap alias_number x ∙ alias_number-new_alias name c))
      go i j a p q (inr h) (inl (f, y)) =
          absurd (omega (arith, v.below i a p h, ap alias_number y ∙ alias_number-new_alias name c))
      go i j a p q (inr h) (inr k) = v.apart i j a p q h k

alias_in-Separate :
    (before : Dict String) (name id : String) (stack : List (Dict String)) (c : ℕ)
    → Separate before (record { stack = stack; counter = c })
    → Separate before
        (alias_in id (new_alias name c) stack (record { stack = stack; counter = c })).1
alias_in-Separate before name id [] c v = record {
  below = λ i a p h. absurd (unfold lookup in cc h);
  apart = λ i j a p q h k. absurd (unfold lookup in cc h);
}
alias_in-Separate before name id (m ∷ ms) c v = elim (Option-cases (lookup id m)) [
  | inl e ↦ rw e (new-Separate before name id m ms c v)
  | inr (a, e) ↦ rw e v
]

-- `getAlias` keeps the aliases of a scope apart: of the tables that the scope has gained since an
-- earlier state, each has an alias numbered below the counter, and no two have the same alias.
pub get_alias-Separate :
    (before : Dict String) (t : TableIdentity) (s : Aliases)
    → Separate before s
    → Separate before (get_alias t s).1
unfolding get_alias
get_alias-Separate before t s v = go (truthy t.alias) t.out
  where
    go : (o : Option String) (b : Bool) → Separate before (alias_or o (alias_of t b) s).1
    go (some a) b = v
    go none true = v
    go none false = alias_in-Separate before t.name (get_table_id t) s.stack s.counter v

module _ (id : String) (m : Dict String) (ms : List (Dict String)) (c : ℕ) where
  -- A table that is in the scope keeps its alias, whatever the new one would be.
  alias_in-again :
      (result other : String)
      → alias_in id other
          (alias_in id result (m ∷ ms) (record { stack = m ∷ ms; counter = c })).1.stack
          (alias_in id result (m ∷ ms) (record { stack = m ∷ ms; counter = c })).1
        ≡ alias_in id result (m ∷ ms) (record { stack = m ∷ ms; counter = c })
  alias_in-again result other = elim (Option-cases (lookup id m)) [
    | inl e ↦ rw e (rw (lookup-insert id id result m, eq_refl id) refl)
    | inr (a, e) ↦ rw e (rw e refl)
  ]

-- Within a scope, a second call of `getAlias` for a table gives what the first one gave, an alias or
-- an error, and changes nothing.
pub get_alias-again :
    (t : TableIdentity) (m : Dict String) (ms : List (Dict String)) (c : ℕ)
    → get_alias t (get_alias t (record { stack = m ∷ ms; counter = c })).1
      ≡ get_alias t (record { stack = m ∷ ms; counter = c })
unfolding get_alias
get_alias-again t m ms c = go (truthy t.alias) t.out
  where
    s : Aliases
    s = record { stack = m ∷ ms; counter = c }

    go :
        (o : Option String) (b : Bool)
        → alias_or o (alias_of t b) (alias_or o (alias_of t b) s).1 ≡ alias_or o (alias_of t b) s
    go (some a) b = refl
    go none true = refl
    go none false =
        ap (λ (r : String × Aliases). (returned r.0, r.1))
          (alias_in-again (get_table_id t) m ms c (new_alias t.name c) (
            new_alias t.name (alias_in (get_table_id t) (new_alias t.name c) (m ∷ ms) s).1.counter))
