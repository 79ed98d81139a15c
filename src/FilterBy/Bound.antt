-- ===== src/FilterBy/Bound.antt =====
-- Values of a filter reach the statement as bound values alone: they have no part in its text.
use mathlib.Core.Option
use vexnor.Base.{
  ℕ, zero, suc, ◌≡◌, refl, sym, ap, ◌∙◌, String, Option, none, some, List, [], ◌∷◌, ◌++◌, map,
  Bool-cases, inl, inr, ◌==◌,
}
use vexnor.FilterBy.{
  Token, text, value, Operator, eq, not_eq, gt, ge, lt, le, between, in_list, not_in, like,
  not_like, is_null, is_not_null, Entry, undefined, object, tuple, bare, Condition, Conditions,
  stop, also, or_group, entries, Field, column, or_field, Filter, absent, legacy, conditions,
  Columns, Joiner, by_and, by_or, texts, first, compare_to, write_more, write_op, with_operator,
  operator_of, find_column, write_at, at_column, is_undefined, Written, separator, one_more,
  then_write, in_parentheses, affix, write_entry, write_entries, write_conditions,
  legacy_to_conditions, write_list, write,
}

module _ {V W : Type 0} (f : V → W) where
  abbrev pub map_token : Token V → Token W
  map_token (text s) = text s
  map_token (value v) = value (Option.map f v)

  abbrev pub map_entry : Entry V → Entry W
  map_entry undefined = undefined
  map_entry object = object
  map_entry (tuple op args) = tuple op (map f args)
  map_entry (bare v) = bare (f v)

  abbrev pub map_entries : List (String × Entry V) → List (String × Entry W)
  map_entries [] = []
  map_entries ((key, e) ∷ es) = (key, map_entry e) ∷ map_entries es

unfoldable mutual
  pub map_condition : {V W : Type 0} → (V → W) → Condition V → Condition W
  map_condition f (or_group cs) = or_group (map_conditions f cs)
  map_condition f (entries es) = entries (map_entries f es)

  pub map_conditions : {V W : Type 0} → (V → W) → Conditions V → Conditions W
  map_conditions f stop = stop
  map_conditions f (also x xs) = also (map_condition f x) (map_conditions f xs)

module _ {V W : Type 0} (f : V → W) where
  abbrev map_fields : List (Field V) → List (Field W)
  unfolding map_conditions
  map_fields [] = []
  map_fields (column key e ∷ fs) = column key (map_entry f e) ∷ map_fields fs
  map_fields (or_field cs ∷ fs) = or_field (map_conditions f cs) ∷ map_fields fs

  -- The filter with `f` applied to each of its values.
  unfoldable pub map_filter : Filter V → Filter W
  unfolding map_conditions
  map_filter absent = absent
  map_filter (legacy fs) = legacy (map_fields fs)
  map_filter (conditions cs) = conditions (map_conditions f cs)

  abbrev pub map_tokens : List (Token V) → List (Token W)
  map_tokens = map (map_token f)

  map_tokens-append :
      (xs ys : List (Token V)) → map_tokens (xs ++ ys) ≡ map_tokens xs ++ map_tokens ys
  map_tokens-append [] ys = refl
  map_tokens-append (x ∷ xs) ys = ap (λ ts. map_token f x ∷ ts) (map_tokens-append xs ys)

  map_tokens-texts : (col : List String) → map_tokens (texts col) ≡ texts col
  map_tokens-texts [] = refl
  map_tokens-texts (s ∷ col) = ap (λ ts. text s ∷ ts) (map_tokens-texts col)

  after_texts :
      (col : List String) (ts : List (Token V))
      → texts col ++ map_tokens ts ≡ map_tokens (texts col ++ ts)
  after_texts col ts =
      ap (λ xs. xs ++ map_tokens ts) (sym (map_tokens-texts col))
      ∙ sym (map_tokens-append (texts col) ts)

  first-map : (args : List V) → first (map f args) ≡ Option.map f (first args)
  first-map [] = refl
  first-map (x ∷ xs) = refl

  compare_to-map :
      (col : List String) (op : String) (args : List V)
      → compare_to col op (map f args) ≡ map_tokens (compare_to col op args)
  compare_to-map col op args =
      ap (λ v. texts col ++ text op ∷ value v ∷ []) (first-map args)
      ∙ after_texts col (text op ∷ value (first args) ∷ [])

  write_more-map : (args : List V) → write_more (map f args) ≡ map_tokens (write_more args)
  unfolding write_more
  write_more-map [] = refl
  write_more-map (x ∷ xs) = ap (λ ts. text ", " ∷ value (some (f x)) ∷ ts) (write_more-map xs)

  write_op-map :
      (col : List String) (op : Operator) (args : List V)
      → write_op col op (map f args) ≡ map_tokens (write_op col op args)
  unfolding write_op
  write_op-map col eq args = compare_to-map col " = " args
  write_op-map col not_eq args = compare_to-map col " <> " args
  write_op-map col gt args = compare_to-map col " > " args
  write_op-map col ge args = compare_to-map col " >= " args
  write_op-map col lt args = compare_to-map col " < " args
  write_op-map col le args = compare_to-map col " <= " args
  write_op-map col between [] = after_texts col (text " is null" ∷ [])
  write_op-map col between (x ∷ xs) =
      ap (λ v. texts col ++ text " between " ∷ value (some (f x)) ∷ text " and " ∷ value v ∷ [])
        (first-map xs)
      ∙ after_texts col (text " between " ∷ value (some x) ∷ text " and " ∷ value (first xs) ∷ [])
  write_op-map col in_list [] = refl
  write_op-map col in_list (x ∷ xs) =
      ap (λ ts. texts col ++ text " in (" ∷ value (some (f x)) ∷ ts) (write_more-map xs)
      ∙ after_texts col (text " in (" ∷ value (some x) ∷ write_more xs)
  write_op-map col not_in [] = refl
  write_op-map col not_in (x ∷ xs) =
      ap (λ ts. texts col ++ text " not in (" ∷ value (some (f x)) ∷ ts) (write_more-map xs)
      ∙ after_texts col (text " not in (" ∷ value (some x) ∷ write_more xs)
  write_op-map col like args = compare_to-map col " like " args
  write_op-map col not_like args = compare_to-map col " not like " args
  write_op-map col is_null args = after_texts col (text " is null" ∷ [])
  write_op-map col is_not_null args = after_texts col (text " is not null" ∷ [])

  with_operator-map :
      (col : List String) (args : List V) (op : Option Operator)
      → with_operator col (map f args) op ≡ Option.map map_tokens (with_operator col args op)
  unfolding with_operator
  with_operator-map col args none = refl
  with_operator-map col args (some op) = ap some (write_op-map col op args)

  at_column-map :
      (e : Entry V) (col : Option (List String))
      → at_column (map_entry f e) col ≡ Option.map map_tokens (at_column e col)
  unfolding write_at
  at_column-map e none = refl
  at_column-map undefined (some col) = refl
  at_column-map object (some col) = refl
  at_column-map (bare v) (some col) = ap some (after_texts col (text " = " ∷ value (some v) ∷ []))
  at_column-map (tuple op args) (some col) = with_operator-map col args (operator_of op)

  write_entry-map :
      (c : Columns) (key : String) (e : Entry V)
      → write_entry c key (map_entry f e) ≡ Option.map map_tokens (write_entry c key e)
  unfolding write_entry
  write_entry-map c key e = at_column-map e (find_column c key)

  -- The same, for what a loop wrote.
  abbrev map_written : Written V → Written W
  map_written = Option.map (λ (r : List (Token V) × ℕ). (map_tokens r.0, r.1))

  map_separator : (j : Joiner) (n : ℕ) → separator j n ≡ map_tokens (separator j n)
  map_separator j zero = refl
  map_separator j (suc n) = refl

  one_more-map :
      (j : Joiner) (n : ℕ) (p : Option (List (Token V))) (q : Option (List (Token W)))
      → q ≡ Option.map map_tokens p
      → one_more (separator j n) n q ≡ map_written (one_more (separator j n) n p)
  one_more-map j n none q e = rw e refl
  one_more-map j n (some ts) q e = rw e (
      ap (λ xs. some (xs, suc n))
        (ap (λ xs. xs ++ map_tokens ts) (map_separator j n)
          ∙ sym (map_tokens-append (separator j n) ts)))

  then_write-map :
      (w : Written V) (x : Written W) (next : ℕ → Written V) (next' : ℕ → Written W)
      → x ≡ map_written w
      → ((n : ℕ) → next' n ≡ map_written (next n))
      → then_write x next' ≡ map_written (then_write w next)
  then_write-map none x next next' e k = rw e refl
  then_write-map (some (ts, n)) x next next' e k = rw e (rw (k n) (go (next n)))
    where
      go :
          (r : Written V)
          → Option.map (λ (s : List (Token W) × ℕ). (map_tokens ts ++ s.0, s.1)) (map_written r)
            ≡ map_written (Option.map (λ (s : List (Token V) × ℕ). (ts ++ s.0, s.1)) r)
      go none = refl
      go (some (us, m)) = ap (λ xs. some (xs, m)) (sym (map_tokens-append ts us))

  is_undefined-map : (e : Entry V) → is_undefined (map_entry f e) ≡ is_undefined e
  is_undefined-map undefined = refl
  is_undefined-map object = refl
  is_undefined-map (tuple op args) = refl
  is_undefined-map (bare v) = refl

  write_entries-map :
      (c : Columns) (j : Joiner) (n : ℕ) (es : List (String × Entry V))
      → write_entries c j n (map_entries f es) ≡ map_written (write_entries c j n es)
  unfolding write_entries
  write_entries-map c j n [] = refl
  write_entries-map c j n ((key, e) ∷ es) = elim (Bool-cases (is_undefined e)) [
    | inl h ↦ rw (is_undefined-map e, h, write_entries) (write_entries-map c j n es)
    | inr h ↦
        rw (is_undefined-map e, h, write_entries)
          (then_write-map (one_more (separator j n) n (write_entry c key e)) _ _ _
            (one_more-map j n (write_entry c key e) _ (write_entry-map c key e))
            (λ m. write_entries-map c j m es))
  ]

  in_parentheses-map :
      (w : Written V) → in_parentheses (map_written w) ≡ Option.map map_tokens (in_parentheses w)
  in_parentheses-map none = refl
  in_parentheses-map (some (ts, n)) =
      ap (λ us. some (text "(" ∷ us)) (sym (map_tokens-append ts (text ")" ∷ [])))

  write_conditions-map :
      (c : Columns) (j : Joiner) (n : ℕ) (cs : Conditions V)
      → write_conditions c j n (map_conditions f cs) ≡ map_written (write_conditions c j n cs)
  unfolding write_conditions map_conditions
  write_conditions-map c j n stop = refl
  write_conditions-map c j n (also (or_group stop) xs) =
      then_write-map (some ([], n)) _ _ _ refl (λ m. write_conditions-map c j m xs)
  write_conditions-map c j n (also (or_group (also y ys)) xs) =
      then_write-map
        (one_more (separator j n) n (in_parentheses (write_conditions c by_or 0 (also y ys)))) _ _ _
        (one_more-map j n (in_parentheses (write_conditions c by_or 0 (also y ys))) _ (
          ap in_parentheses (write_conditions-map c by_or 0 (also y ys))
          ∙ in_parentheses-map (write_conditions c by_or 0 (also y ys))))
        (λ m. write_conditions-map c j m xs)
  write_conditions-map c j n (also (entries es) xs) =
      then_write-map (write_entries c j n es) _ _ _ (write_entries-map c j n es)
        (λ m. write_conditions-map c j m xs)

  affix-map : (s : String) → affix s ≡ map_tokens (affix s)
  affix-map s = elim (Bool-cases (s == "")) [ inl h ↦ rw h refl | inr h ↦ rw h refl ]

  write_list-map :
      (c : Columns) (prefix suffix : String) (cs : Conditions V)
      → write_list c prefix suffix (map_conditions f cs)
        ≡ Option.map map_tokens (write_list c prefix suffix cs)
  unfolding write_list map_conditions
  write_list-map c prefix suffix stop = refl
  write_list-map c prefix suffix (also x xs) =
      ap (Option.map (λ (r : List (Token W) × ℕ). affix prefix ++ r.0 ++ affix suffix))
        (write_conditions-map c by_and 0 (also x xs))
      ∙ go (write_conditions c by_and 0 (also x xs))
    where
      go :
          (w : Written V)
          → Option.map
              (λ (r : List (Token W) × ℕ). affix prefix ++ r.0 ++ affix suffix)
              (map_written w)
            ≡ Option.map map_tokens
                (Option.map (λ (r : List (Token V) × ℕ). affix prefix ++ r.0 ++ affix suffix) w)
      go none = refl
      go (some (ts, n)) = ap some (
          ap (λ xs. xs ++ map_tokens ts ++ affix suffix) (affix-map prefix)
          ∙ ap (λ xs. xs ++ affix suffix) (sym (map_tokens-append (affix prefix) ts))
          ∙ ap (λ xs. map_tokens (affix prefix ++ ts) ++ xs) (affix-map suffix)
          ∙ sym (map_tokens-append (affix prefix ++ ts) (affix suffix)))

  legacy-map :
      (fs : List (Field V))
      → legacy_to_conditions (map_fields fs) ≡ map_conditions f (legacy_to_conditions fs)
  unfolding legacy_to_conditions map_conditions
  legacy-map [] = refl
  legacy-map (column key e ∷ fs) = elim (Bool-cases (is_undefined e)) [
    | inl h ↦ rw (is_undefined-map e, h) (legacy-map fs)
    | inr h ↦
        rw (is_undefined-map e, h) (ap (also (entries ((key, map_entry f e) ∷ []))) (legacy-map fs))
  ]
  legacy-map (or_field cs ∷ fs) = ap (also (or_group (map_conditions f cs))) (legacy-map fs)

  -- Replacing the values of a filter, in any way, replaces the values that are bound and nothing
  -- else: the texts of the statement, their order, and whether there is an error stay the same.
  pub write-map_filter :
      (c : Columns) (prefix suffix : String) (flt : Filter V)
      → write c prefix suffix (map_filter flt) ≡ Option.map map_tokens (write c prefix suffix flt)
  unfolding write map_filter
  write-map_filter c prefix suffix absent = refl
  write-map_filter c prefix suffix (legacy fs) =
      ap (write_list c prefix suffix) (legacy-map fs)
      ∙ write_list-map c prefix suffix (legacy_to_conditions fs)
  write-map_filter c prefix suffix (conditions cs) = write_list-map c prefix suffix cs
