-- ===== src/FilterBy/Printed.antt =====
-- The loops of `writeConditions` against a printer without a counter.
use mathlib.Core.Option
use vexnor.Base.{
  ℕ, suc, ◌+◌, ◌≡◌, refl, sym, ap, ◌∙◌, String, true, false, Option, none, some, List, [], ◌∷◌,
  ◌++◌, length, arith, Bool-cases, inl, inr, length-append,
}
use vexnor.FilterBy.{
  Token, text, Entry, Condition, Conditions, stop, also, or_group, entries, Columns, Joiner, by_or,
  joiner_text, is_undefined, Written, separator, one_more, then_write, in_parentheses, write_entry,
  write_entries, write_conditions,
}

-- What is written for one defined key, or one group: a piece.
abbrev pub Pieces : Type 0 → Type 0
Pieces V = Option (List (List (Token V)))

module _ {V : Type 0} where
  -- The pieces with the joiner between each two.
  abbrev pub joined : Joiner → List (List (Token V)) → List (Token V)
  joined j [] = []
  joined j (p ∷ []) = p
  joined j (p ∷ q ∷ ps) = p ++ text (joiner_text j) ∷ joined j (q ∷ ps)

  abbrev pub cons_piece : Option (List (Token V)) → Pieces V → Pieces V
  cons_piece (some p) (some ps) = some (p ∷ ps)
  cons_piece p ps = none

  abbrev pub append_pieces : Pieces V → Pieces V → Pieces V
  append_pieces (some ps) (some qs) = some (ps ++ qs)
  append_pieces ps qs = none

  unfoldable pub entry_pieces : Columns → List (String × Entry V) → Pieces V
  entry_pieces c [] = some []
  entry_pieces c ((key, e) ∷ es) = elim (is_undefined e) [
    | true ↦ entry_pieces c es
    | false ↦ cons_piece (write_entry c key e) (entry_pieces c es)
  ]

  abbrev pub group_piece : Pieces V → Pieces V
  group_piece none = none
  group_piece (some ps) = some ((text "(" ∷ joined by_or ps ++ text ")" ∷ []) ∷ [])

unfoldable mutual
  unfolding entry_pieces

  pub pieces : {V : Type 0} → Columns → Conditions V → Pieces V
  pieces c stop = some []
  pieces c (also x xs) = append_pieces (piece c x) (pieces c xs)

  pub piece : {V : Type 0} → Columns → Condition V → Pieces V
  piece c (or_group stop) = some []
  piece c (or_group (also x xs)) = group_piece (pieces c (also x xs))
  piece c (entries es) = entry_pieces c es

module _ {V : Type 0} where
  -- The pieces, each with the separator that the counter asks for.
  abbrev counted : Joiner → ℕ → List (List (Token V)) → List (Token V)
  counted j n [] = []
  counted j n (p ∷ ps) = (separator j n ++ p) ++ counted j (suc n) ps

  append_assoc : (xs ys zs : List (Token V)) → (xs ++ ys) ++ zs ≡ xs ++ (ys ++ zs)
  append_assoc [] ys zs = refl
  append_assoc (x ∷ xs) ys zs = ap (λ ts. x ∷ ts) (append_assoc xs ys zs)

  append_nil : (xs : List (Token V)) → xs ++ [] ≡ xs
  append_nil [] = refl
  append_nil (x ∷ xs) = ap (λ ts. x ∷ ts) (append_nil xs)

  counted_suc :
      (j : Joiner) (n : ℕ) (p : List (Token V)) (ps : List (List (Token V)))
      → counted j (suc n) (p ∷ ps) ≡ text (joiner_text j) ∷ joined j (p ∷ ps)
  counted_suc j n p [] = ap (λ ts. text (joiner_text j) ∷ ts) (append_nil p)
  counted_suc j n p (q ∷ ps) =
      ap (λ ts. text (joiner_text j) ∷ (p ++ ts)) (counted_suc j (suc n) q ps)

  counted_zero : (j : Joiner) (ps : List (List (Token V))) → counted j 0 ps ≡ joined j ps
  counted_zero j [] = refl
  counted_zero j (p ∷ []) = append_nil p
  counted_zero j (p ∷ q ∷ ps) = ap (λ ts. p ++ ts) (counted_suc j 0 q ps)

  counted-append :
      (j : Joiner) (n m : ℕ) (ps qs : List (List (Token V)))
      → n + length ps ≡ m
      → counted j n (ps ++ qs) ≡ counted j n ps ++ counted j m qs
  counted-append j n m [] qs e = ap (λ k. counted j k qs) (omega (arith, e))
  counted-append j n m (p ∷ ps) qs e =
      ap (λ ts. (separator j n ++ p) ++ ts) (counted-append j (suc n) m ps qs (omega (arith, e)))
      ∙ sym (append_assoc (separator j n ++ p) (counted j (suc n) ps) (counted j m qs))

  -- What a loop writes for its pieces, from a counter on.
  abbrev from_pieces : Joiner → ℕ → Pieces V → Written V
  from_pieces j n none = none
  from_pieces j n (some ps) = some (counted j n ps, n + length ps)

  then_write-pieces :
      (j : Joiner) (n : ℕ) (w : Written V) (next : ℕ → Written V) (ps qs : Pieces V)
      → w ≡ from_pieces j n ps
      → ((m : ℕ) → next m ≡ from_pieces j m qs)
      → then_write w next ≡ from_pieces j n (append_pieces ps qs)
  then_write-pieces j n w next none qs e k = rw e refl
  then_write-pieces j n w next (some ps) none e k = rw e (rw (k (n + length ps)) refl)
  then_write-pieces j n w next (some ps) (some qs) e k = rw e (
      rw (k (n + length ps)) (
        rw (counted-append j n (n + length ps) ps qs refl) (
          ap (λ m. some (counted j n ps ++ counted j (n + length ps) qs, m))
            (omega (arith, length-append ps qs)))))

  cons-append_pieces :
      (p : Option (List (Token V))) (qs : Pieces V)
      → cons_piece p qs ≡ append_pieces (cons_piece p (some [])) qs
  cons-append_pieces none qs = refl
  cons-append_pieces (some p) none = refl
  cons-append_pieces (some p) (some qs) = refl

  one_more-pieces :
      (j : Joiner) (n : ℕ) (p : Option (List (Token V)))
      → one_more (separator j n) n p ≡ from_pieces j n (cons_piece p (some []))
  one_more-pieces j n none = refl
  one_more-pieces j n (some p) =
      let next : suc n ≡ n + 1 = omega arith in
      λ i. some (sym (append_nil (separator j n ++ p)) i, next i)

  write_entries-pieces :
      (c : Columns) (j : Joiner) (n : ℕ) (es : List (String × Entry V))
      → write_entries c j n es ≡ from_pieces j n (entry_pieces c es)
  unfolding write_entries entry_pieces
  write_entries-pieces c j n [] = ap (λ m. some ([], m)) (omega arith)
  write_entries-pieces c j n ((key, e) ∷ es) = elim (Bool-cases (is_undefined e)) [
    | inl h ↦ rw (h, write_entries, entry_pieces) (write_entries-pieces c j n es)
    | inr h ↦
        rw (h, write_entries, entry_pieces)
          (then_write-pieces j n _ _ (cons_piece (write_entry c key e) (some []))
              (entry_pieces c es) (one_more-pieces j n (write_entry c key e))
              (λ m. write_entries-pieces c j m es)
            ∙ ap (from_pieces j n)
                (sym (cons-append_pieces (write_entry c key e) (entry_pieces c es))))
  ]

  group-pieces :
      (j : Joiner) (n : ℕ) (ps : Pieces V)
      → one_more (separator j n) n (in_parentheses (from_pieces by_or 0 ps))
        ≡ from_pieces j n (group_piece ps)
  group-pieces j n none = refl
  group-pieces j n (some ps) =
      rw (counted_zero by_or ps)
        (one_more-pieces j n (some (text "(" ∷ joined by_or ps ++ text ")" ∷ [])))

  write_conditions-pieces :
      (c : Columns) (j : Joiner) (n : ℕ) (cs : Conditions V)
      → write_conditions c j n cs ≡ from_pieces j n (pieces c cs)
  unfolding write_conditions pieces
  write_conditions-pieces c j n stop = ap (λ m. some ([], m)) (omega arith)
  write_conditions-pieces c j n (also (or_group stop) xs) =
      then_write-pieces j n _ _ (some []) (pieces c xs) (ap (λ m. some ([], m)) (omega arith))
        (λ m. write_conditions-pieces c j m xs)
  write_conditions-pieces c j n (also (or_group (also y ys)) xs) =
      then_write-pieces j n _ _ (group_piece (pieces c (also y ys))) (pieces c xs)
        (ap (λ w. one_more (separator j n) n (in_parentheses w))
            (write_conditions-pieces c by_or 0 (also y ys))
          ∙ group-pieces j n (pieces c (also y ys)))
        (λ m. write_conditions-pieces c j m xs)
  write_conditions-pieces c j n (also (entries es) xs) =
      then_write-pieces j n _ _ (entry_pieces c es) (pieces c xs) (write_entries-pieces c j n es)
        (λ m. write_conditions-pieces c j m xs)

  first-from_pieces :
      (j : Joiner) (ps : Pieces V)
      → Option.map (λ (r : List (Token V) × ℕ). r.0) (from_pieces j 0 ps) ≡ Option.map (joined j) ps
  first-from_pieces j none = refl
  first-from_pieces j (some ps) = ap some (counted_zero j ps)

  -- The counter of `writeConditions` makes the text of a plain printer: each defined key of a
  -- condition is one piece, and so is each group that has conditions, in parentheses; the joiner
  -- stands between two pieces and nowhere else, and `or` joins the pieces of a group. An error in
  -- one of them is an error of the whole.
  pub write_conditions-joined :
      (c : Columns) (j : Joiner) (cs : Conditions V)
      → Option.map (λ (r : List (Token V) × ℕ). r.0) (write_conditions c j 0 cs)
        ≡ Option.map (joined j) (pieces c cs)
  write_conditions-joined c j cs =
      rw (write_conditions-pieces c j 0 cs) (first-from_pieces j (pieces c cs))
