-- ===== src/SchemaGraph/Joins.antt =====
-- The results of `joinPath` and `shortestPathFromConnected`.
use vexnor.Base.{
  In, suc, ◌≤◌, ◌≡◌, ◌⊎◌, inl, inr, refl, sym, subst, ap, ◌∙◌, String, false, ◌||◌, not, Option,
  none, some, List, [], ◌∷◌, ◌==◌, length, arith, Bool-cases, ltb, ltb→lt,
}
use vexnor.Base.Dict.{has, has_key}
use vexnor.Errors.{Outcome, returned, threw}
use vexnor.SchemaGraph.{FkEdge, Tables, fk_graph, find_path}
use vexnor.SchemaGraph.Steps.{
  JoinStep, step_of, steps_of, cons_step, path_result, join_path, better, consider, and_then,
  best_from, shortest_path_from_connected,
}
use vexnor.SchemaGraph.Edges.{Chain}
use vexnor.SchemaGraph.Shortest.{find_path-shortest}

length-cons_step :
    (x : Option JoinStep) (xs : Option (List JoinStep)) (steps : List JoinStep)
    → cons_step x xs ≡ some steps
    → (rest : List JoinStep) × (xs ≡ some rest) × (length steps ≡ suc (length rest))
length-cons_step none xs steps h = cc
length-cons_step (some x) none steps h = cc
length-cons_step (some x) (some rest) [] h = cc
length-cons_step (some x) (some rest) (s ∷ steps) h = (rest, refl, ground (arith, h))

length-steps_of :
    (path : List FkEdge) (steps : List JoinStep)
    → steps_of path ≡ some steps
    → length steps ≡ length path
unfolding steps_of
length-steps_of [] steps h = ground (arith, h)
length-steps_of (e ∷ es) steps h =
    let (rest, p, l) = length-cons_step (step_of e) (steps_of es) steps h in
    omega (arith, l, length-steps_of es rest p)

path_result-some :
    (r : Option (List FkEdge)) (steps : List JoinStep)
    → path_result r ≡ returned (some steps)
    → (path : List FkEdge) × (r ≡ some path) × (steps_of path ≡ some steps)
unfolding steps_of
path_result-some none steps h = cc
path_result-some (some path) steps h = go (steps_of path) refl
  where
    go :
        (o : Option (List JoinStep))
        → steps_of path ≡ o
        → (p : List FkEdge) × (some path ≡ some p) × (steps_of p ≡ some steps)
    go none e = absurd (ground (arith, h, e))
    go (some x) e = (path, refl, ground (arith, h, e))

-- The steps that `joinPath` returns are those of a chain of foreign keys from the one table to the
-- other, one step for each edge, and no chain between them is shorter.
pub join_path-shortest :
    (ts : Tables) (s t : String) (steps : List JoinStep)
    → (s == t) ≡ false
    → join_path ts s t ≡ returned (some steps)
    → ((path : List FkEdge) × Chain (fk_graph ts) s path t × (steps_of path ≡ some steps))
      × ((q : List FkEdge) → Chain (fk_graph ts) s q t → length steps ≤ length q)
unfolding join_path
join_path-shortest ts s t steps ne h =
    elim (Bool-cases (not (has_key s (fk_graph ts)) || not (has_key t (fk_graph ts)))) [
      | inl k ↦ absurd (cc (rw (ne, k) at h))
      | inr k ↦
          let (path, e, l) =
            path_result-some (find_path (fk_graph ts) s t) steps (rw (ne, k) at h) in
          let found = find_path-shortest (fk_graph ts) s t path ne e in
          ((path, found.0, l), λ q c. omega (arith, found.1 q c, length-steps_of path steps l))
    ]

-- The path is no longer than the other, if there is another.
abbrev NoLonger : List JoinStep → Option (List JoinStep) → Type 0
NoLonger best none = Unit
NoLonger best (some steps) = length best ≤ length steps

abbrev From : Tables → List String → String → List JoinStep → Type 0
From ts ids target best =
    (id : String) × In id ids × (join_path ts id target ≡ returned (some best))

-- No table of the list has a shorter path to the target.
abbrev pub IsBest : Tables → List String → String → List JoinStep → Type 0
IsBest ts ids target best =
    (id : String) (steps : List JoinStep)
    → In id ids
    → join_path ts id target ≡ returned (some steps)
    → length best ≤ length steps

same_steps : {p q : List JoinStep} → returned (some p) ≡ returned (some q) → p ≡ q
same_steps h = cc

module _ (ts : Tables) (target : String) where
  chosen :
      (id : String) (ids : List String) (best c : List JoinStep) {X : Type 0}
      → join_path ts id target ≡ returned (some c)
      → ((some c ≡ some best) ⊎ From ts ids target best)
      → X ⊎ From ts (id ∷ ids) target best
  chosen id ids best c jc (inl p) = inr (id, inl refl, jc ∙ ap returned p)
  chosen id ids best c jc (inr (k, i, e)) = inr (k, inr i, e)

  betters :
      (id : String) (ids : List String) (best : List JoinStep) (a : Option (List JoinStep))
      (c : List JoinStep)
      → join_path ts id target ≡ returned (some c)
      → NoLonger best (better a c)
      → ((better a c ≡ some best) ⊎ From ts ids target best)
      → NoLonger best a
        × (length best ≤ length c)
        × ((a ≡ some best) ⊎ From ts (id ∷ ids) target best)
  betters id ids best none c jc n f = (tt, n, chosen id ids best c jc f)
  betters id ids best (some a) c jc n f = elim (Bool-cases (ltb (length c) (length a))) [
    | inl e ↦
        let n' : length best ≤ length c = rw e at n in
        (omega (arith, n', ltb→lt (length c) (length a) e), n', chosen id ids best c jc (rw e at f))
    | inr e ↦
        let n' : length best ≤ length a = rw e at n in
        (
          n',
          ground (arith, n', e),
          elim (the_rest e f) [ inl p ↦ inl p | inr (k, i, q) ↦ inr (k, inr i, q) ],
        )
  ]
    where
      the_rest :
          ltb (length c) (length a) ≡ false
          → ((better (some a) c ≡ some best) ⊎ From ts ids target best)
          → (some a ≡ some best) ⊎ From ts ids target best
      the_rest e f = rw e at f

  considered :
      (id : String) (ids : List String) (acc : Option (List JoinStep)) (best : List JoinStep)
      (o : Outcome (Option (List JoinStep)))
      → join_path ts id target ≡ o
      → ((next : Option (List JoinStep))
          → best_from ts ids target next ≡ returned (some best)
          → NoLonger best next
            × IsBest ts ids target best
            × ((next ≡ some best) ⊎ From ts ids target best))
      → and_then (best_from ts ids target) (consider o acc) ≡ returned (some best)
      → NoLonger best acc
        × IsBest ts (id ∷ ids) target best
        × ((acc ≡ some best) ⊎ From ts (id ∷ ids) target best)
  considered id ids acc best (threw e) j ih h = cc
  considered id ids acc best (returned none) j ih h =
      let (n, b, f) = ih acc h in
      (
        n,
        λ k steps i e. elim i [
          | inl p ↦ absurd (cc (j, subst (λ x. join_path ts x target ≡ returned (some steps)) p e))
          | inr i' ↦ b k steps i' e
        ],
        elim f [ inl p ↦ inl p | inr (k, i, e) ↦ inr (k, inr i, e) ],
      )
  considered id ids acc best (returned (some candidate)) j ih h =
      let (n, b, f) = ih (better acc candidate) h in
      let (na, nc, fc) = betters id ids best acc candidate j n f in
      (
        na,
        λ k steps i e. elim i [
          | inl p ↦
              subst (λ x. length best ≤ length x)
                (same_steps
                  (sym j ∙ subst (λ x. join_path ts x target ≡ returned (some steps)) p e))
                nc
          | inr i' ↦ b k steps i' e
        ],
        fc,
      )

  best_from_lem :
      (ids : List String) (acc : Option (List JoinStep)) (best : List JoinStep)
      → best_from ts ids target acc ≡ returned (some best)
      → NoLonger best acc
        × IsBest ts ids target best
        × ((acc ≡ some best) ⊎ From ts ids target best)
  unfolding best_from
  best_from_lem [] none best h = cc
  best_from_lem [] (some a) best h =
      (ground (arith, h), λ k steps i e. elim i [ ], inl (ground (arith, h)))
  best_from_lem (id ∷ ids) acc best h =
      considered id ids acc best (join_path ts id target) refl (λ next. best_from_lem ids next best)
        h

-- Where the target is not connected yet and a path is returned, it is one that `joinPath` returns
-- for a connected table, and no connected table has a shorter one.
pub shortest_path-IsBest :
    (ts : Tables) (ids : List String) (target : String) (best : List JoinStep)
    → has target ids ≡ false
    → shortest_path_from_connected ts ids target ≡ returned (some best)
    → IsBest ts ids target best
      × ((id : String) × In id ids × (join_path ts id target ≡ returned (some best)))
unfolding shortest_path_from_connected
shortest_path-IsBest ts ids target best h e =
    let (n, b, f) = best_from_lem ts target ids none best (rw h at e) in
    (b, elim f [ inl p ↦ absurd (cc p) | inr from ↦ from ])
