-- ===== src/SchemaGraph/PlanOrder.antt =====
-- What `join` makes of its targets: each step and each table once, the root in front.
use vexnor.Base.{
  ◌≡◌, refl, sym, subst, ap, ◌∙◌, String, true, false, Option, none, some, List, [], ◌∷◌, ◌++◌, map,
  ◌==◌, arith, eq_iff, eq_refl, Bool-cases, inl, inr,
}
use vexnor.Base.Dict.{has, add}
use vexnor.Base.Unique.{Unique, has-snoc, Unique-snoc}
use vexnor.Errors.{Outcome, returned, threw}
use vexnor.SchemaGraph.{Table, Tables, qualify_table}
use vexnor.SchemaGraph.Steps.{JoinStep, shortest_path_from_connected, and_then}
use vexnor.SchemaGraph.Plan.{
  Target, JoinResult, Progress, step_key, take_steps, reach_target, next_target, reach_targets,
  first_of_each, id_of, result_of, finish_join, join,
}

first_of_each-has :
    (x : String) (before ids : List String)
    → has x before ≡ true
    → has x (first_of_each before ids) ≡ false
unfolding first_of_each has
first_of_each-has x before [] h = refl
first_of_each-has x before (id ∷ ids) h =
    let ih = first_of_each-has x (before ++ id ∷ []) ids (rw (has-snoc x id before, h) refl) in
    elim (Bool-cases (has id before)) [
      | inl e ↦ rw e ih
      | inr e ↦ rw e (elim (Bool-cases (id == x)) [
        | inl q ↦ absurd (cc (subst (λ y. has y before ≡ false) ((eq_iff id x).0 q) e, h))
        | inr q ↦ rw (q, ih) refl
      ])
    ]

Unique-first_of_each : (before ids : List String) → Unique (first_of_each before ids)
unfolding first_of_each
Unique-first_of_each before [] = tt
Unique-first_of_each before (id ∷ ids) = elim (Bool-cases (has id before)) [
  | inl e ↦ rw e (Unique-first_of_each (before ++ id ∷ []) ids)
  | inr e ↦ rw e (
    first_of_each-has id (before ++ id ∷ []) ids
        (rw (has-snoc id id before, eq_refl id) (ground arith)),
    Unique-first_of_each (before ++ id ∷ []) ids,
  )
]

-- The keys of the path are those that were seen, each once.
record IsOnce (p : Progress) : Type 0 where
  keys : map step_key p.path ≡ p.seen_steps
  once : Unique p.seen_steps

map-snoc :
    (step : JoinStep) (path : List JoinStep)
    → map step_key (path ++ step ∷ []) ≡ map step_key path ++ step_key step ∷ []
map-snoc step [] = refl
map-snoc step (x ∷ path) = ap (λ ks. step_key x ∷ ks) (map-snoc step path)

take_steps-IsOnce : (steps : List JoinStep) (p : Progress) → IsOnce p → IsOnce (take_steps steps p)
unfolding take_steps
take_steps-IsOnce [] p v = v
take_steps-IsOnce (step ∷ steps) p v =
    take_steps-IsOnce steps _ (elim (Bool-cases (has (step_key step) p.seen_steps)) [
      | inl e ↦ rw e v
      | inr e ↦ rw e (record {
        keys =
            unfold add in rw e (map-snoc step p.path ∙ ap (λ ks. ks ++ step_key step ∷ []) v.keys);
        once = unfold add in rw e (Unique-snoc (step_key step) p.seen_steps v.once e);
      })
    ])

reach_targets-IsOnce :
    (ts : Tables) (targets : List Target) (p q : Progress)
    → IsOnce p
    → reach_targets ts targets p ≡ returned (some q)
    → IsOnce q
unfolding reach_targets
reach_targets-IsOnce ts [] p q v h = subst IsOnce (injective p q h) v
  where
    injective : (a b : Progress) → returned (some a) ≡ returned (some b) → a ≡ b
    injective a b e = cc
reach_targets-IsOnce ts (t ∷ targets) p q v h =
    go (shortest_path_from_connected ts p.connected (qualify_table t.table))
      (λ p'. reach_targets-IsOnce ts targets p' q) h
  where
    go :
        (o : Outcome (Option (List JoinStep)))
        → ((p' : Progress) → IsOnce p' → reach_targets ts targets p' ≡ returned (some q) → IsOnce q)
        → and_then
            (λ steps.
              next_target (reach_targets ts targets) (reach_target (qualify_table t.table) p steps))
            o
          ≡ returned (some q)
        → IsOnce q
    go (threw e) ih k = absurd (cc k)
    go (returned none) ih k = absurd (cc k)
    go (returned (some steps)) ih k =
        let w = take_steps-IsOnce steps p v in ih _ (record { keys = w.keys; once = w.once }) k

result_injective : (a b : JoinResult) → returned (some a) ≡ returned (some b) → a ≡ b
result_injective a b e = cc

root_first :
    (ts : Tables) (root : Table) (targets : List Target) (p : Progress)
    → (rest : List String) × ((result_of ts root targets p).tables ≡ qualify_table root ∷ rest)
unfolding result_of first_of_each has
root_first ts root targets p = (_, refl)

tables-Unique :
    (ts : Tables) (root : Table) (targets : List Target) (p : Progress)
    → Unique (result_of ts root targets p).tables
unfolding result_of
tables-Unique ts root targets p =
    Unique-first_of_each [] (qualify_table root ∷ map (λ (s : JoinStep). id_of s.to) p.path)

-- A join that succeeds lists each table once, the root first, and takes no step twice.
pub join-Unique :
    (ts : Tables) (root : Table) (targets : List Target) (r : JoinResult)
    → join ts root targets ≡ returned (some r)
    → ((rest : List String) × (r.tables ≡ qualify_table root ∷ rest))
      × Unique r.tables
      × ((p : Progress) × (result_of ts root targets p ≡ r) × Unique (map step_key p.path))
unfolding join
join-Unique ts root targets r h = go (reach_targets ts targets start) refl h
  where
    start : Progress
    start = record { path = []; seen_steps = []; connected = qualify_table root ∷ [] }

    go :
        (o : Outcome (Option Progress))
        → reach_targets ts targets start ≡ o
        → and_then (finish_join ts root targets) o ≡ returned (some r)
        → ((rest : List String) × (r.tables ≡ qualify_table root ∷ rest))
          × Unique r.tables
          × ((p : Progress) × (result_of ts root targets p ≡ r) × Unique (map step_key p.path))
    go (threw x) e k = absurd (cc k)
    go (returned none) e k = absurd (cc k)
    go (returned (some p)) e k =
        let v = reach_targets-IsOnce ts targets start p (record { keys = refl; once = tt }) e in
        let q = result_injective (result_of ts root targets p) r k in
        (
          subst (λ (x : JoinResult). (rest : List String) × (x.tables ≡ qualify_table root ∷ rest))
              q (root_first ts root targets p),
          subst (λ (x : JoinResult). Unique x.tables) q (tables-Unique ts root targets p),
          (p, q, subst Unique (sym v.keys) v.once),
        )
