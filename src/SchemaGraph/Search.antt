-- ===== src/SchemaGraph/Search.antt =====
-- The invariant of the breadth-first search of `joinPath`, and that each part of it keeps it.
use vexnor.Base.{
  In, ℕ, ◌+◌, ◌≤◌, ◌≡◌, ◌⊎◌, inl, inr, refl, sym, subst, String, true, false, Option, none, some,
  List, [], ◌∷◌, ◌++◌, ◌==◌, length, length-append, arith, eq_iff, eq_refl, Bool-cases, All,
  All-append, leb, leb→le,
}
use vexnor.Base.Dict.{has, add}
use vexnor.SchemaGraph.{FkEdge, Graph, edges_of, targets, Scan, found, scanned, scan}
use vexnor.SchemaGraph.Edges.{
  Chain, Walks, Chain-snoc, has-add, unvisited, unvisited-add, has-targets,
}

abbrev pub Item : Type 0
Item = String × List FkEdge

-- The table stands in the queue.
abbrev pub Queued : String → List Item → Type 0
Queued v [] = ⊥
Queued v (x ∷ queue) = (v ≡ x.0) ⊎ Queued v queue

-- The paths of the queue have the length `k`, and from some place on one more.
abbrev pub Levels : ℕ → List Item → Type 0
Levels k [] = Unit
Levels k (x ∷ queue) =
    ((length x.1 ≡ k) × Levels k queue) ⊎ All (λ (y : Item). length y.1 ≡ k + 1) (x ∷ queue)

module _ (g : Graph) (s t : String) where
  -- The path leads to its table, and no walk there is shorter.
  abbrev pub IsLeast : Item → Type 0
  IsLeast x = Chain g s x.1 x.0 × ((m : ℕ) → Walks g s m x.0 → length x.1 ≤ m)

  -- All neighbours of the table are visited.
  abbrev pub Closed : String → List String → Type 0
  Closed v visited = (e : FkEdge) → In e (edges_of g v) → has e.to visited ≡ true

  -- The state of the search at level `k`, with the table `Open` among those whose edges are not yet
  -- all followed.
  pub record IsSearch (Open : String → Type 0) (k fuel : ℕ) (visited : List String)
      (queue : List Item) : Type 0 where
    pub least : All IsLeast queue
    pub levels : Levels k queue
    pub missed : has t visited ≡ false
    pub closed : (v : String) → has v visited ≡ true → Queued v queue ⊎ (Closed v visited ⊎ Open v)
    pub near : (m : ℕ) (v : String) → Walks g s m v → m ≤ k → has v visited ≡ true
    pub room : unvisited visited (targets g) + length queue ≤ fuel

  abbrev pub Nothing : String → Type 0
  Nothing v = ⊥

  -- What the search returns is a shortest path, and nothing where there is no path.
  abbrev pub Verdict : Option (List FkEdge) → Type 0
  Verdict none = (m : ℕ) → Walks g s m t → ⊥
  Verdict (some path) = IsLeast (t, path)

  -- What the loop over the edges of one table leaves.
  abbrev pub ScanVerdict : ℕ → ℕ → Scan → Type 0
  ScanVerdict k fuel (found path) = IsLeast (t, path)
  ScanVerdict k fuel (scanned visited queue) = IsSearch Nothing k fuel visited queue

Queued-append : (v : String) (queue rest : List Item) → Queued v queue → Queued v (queue ++ rest)
Queued-append v [] rest h = elim h [ ]
Queued-append v (x ∷ queue) rest (inl h) = inl h
Queued-append v (x ∷ queue) rest (inr h) = inr (Queued-append v queue rest h)

Queued-last : (v : String) (queue : List Item) (x : Item) → v ≡ x.0 → Queued v (queue ++ x ∷ [])
Queued-last v [] x h = inl h
Queued-last v (y ∷ queue) x h = inr (Queued-last v queue x h)

Levels-snoc :
    (k : ℕ) (queue : List Item) (x : Item)
    → Levels k queue
    → length x.1 ≡ k + 1
    → Levels k (queue ++ x ∷ [])
Levels-snoc k [] x h l = inr (l, tt)
Levels-snoc k (y ∷ queue) x (inl (h, r)) l = inl (h, Levels-snoc k queue x r l)
Levels-snoc k (y ∷ queue) x (inr h) l =
    inr (All-append (λ (z : Item). length z.1 ≡ k + 1) (y ∷ queue) (x ∷ []) h (l, tt))

pub Levels-tail : (k : ℕ) (x : Item) (queue : List Item) → Levels k (x ∷ queue) → Levels k queue
Levels-tail k x queue (inl (h, r)) = r
Levels-tail k x [] (inr h) = tt
Levels-tail k x (y ∷ queue) (inr h) = inr h.1

pub Levels-next :
    (k : ℕ) (queue : List Item)
    → All (λ (y : Item). length y.1 ≡ k + 1) queue
    → Levels (k + 1) queue
Levels-next k [] h = tt
Levels-next k (x ∷ queue) h = inl (h.0, Levels-next k queue h.1)

has_more :
    (k v : String) (visited : List String) → has v visited ≡ true → has v (add k visited) ≡ true
has_more k v visited h = rw (has-add k v visited, h) (ground arith)

module _ (g : Graph) (s t : String) (k fuel : ℕ) (u : String) (path : List FkEdge)
    (here : IsLeast g s t (u, path)) (level : length path ≡ k) where
  -- A table that is not visited is further than the level.
  further :
      {Open : String → Type 0} {visited : List String} {queue : List Item} (v : String)
      → IsSearch g s t Open k fuel visited queue
      → has v visited ≡ false
      → (m : ℕ) → Walks g s m v
      → k + 1 ≤ m
  further {visited = visited} v inv h m w = elim (Bool-cases (leb m k)) [
    | inl le ↦ absurd (cc (inv.near m v w (leb→le m k le), h))
    | inr gt ↦ ground (arith, gt)
  ]

  step-IsLeast :
      {Open : String → Type 0} {visited : List String} {queue : List Item} (e : FkEdge)
      → In e (edges_of g u)
      → IsSearch g s t Open k fuel visited queue
      → has e.to visited ≡ false
      → IsLeast g s t (e.to, path ++ e ∷ [])
  step-IsLeast e i inv h = (
    Chain-snoc g path s u e here.0 i,
    λ m w. omega (arith, further e.to inv h m w, length-append path (e ∷ []), level),
  )

  enqueued :
      {visited : List String} {queue : List Item} (e : FkEdge)
      → In e (edges_of g u)
      → IsSearch g s t (λ v. v ≡ u) k fuel visited queue
      → has e.to visited ≡ false
      → (e.to == t) ≡ false
      → IsSearch g s t (λ v. v ≡ u) k fuel (add e.to visited) (queue ++ (e.to, path ++ e ∷ []) ∷ [])
  enqueued {visited = visited} {queue = queue} e i inv h ne = record {
    least = All-append (IsLeast g s t) queue (_ ∷ []) inv.least (step-IsLeast e i inv h, tt);
    levels = Levels-snoc k queue _ inv.levels (omega (arith, length-append path (e ∷ []), level));
    missed = rw (has-add e.to t visited, ne) inv.missed;
    closed = λ v m. elim (Bool-cases (e.to == v)) [
      | inl f ↦ inl (Queued-last v queue _ (sym ((eq_iff e.to v).0 f)))
      | inr f ↦ elim (inv.closed v (rw (has-add e.to v visited, f) at m)) [
        | inl q ↦ inl (Queued-append v queue _ q)
        | inr (inl c) ↦ inr (inl (λ x j. has_more e.to x.to visited (c x j)))
        | inr (inr o) ↦ inr (inr o)
      ]
    ];
    near = λ m v w le. has_more e.to v visited (inv.near m v w le);
    room = omega (
      arith,
      inv.room,
      unvisited-add e.to visited (targets g) (has-targets e u g i) h,
      length-append queue ((e.to, path ++ e ∷ []) ∷ []),
    );
  }

  pub scan-verdict :
      (es : List FkEdge) (visited : List String) (queue : List Item)
      → ((e : FkEdge) → In e es → In e (edges_of g u))
      → ((e : FkEdge) → In e (edges_of g u) → In e es ⊎ (has e.to visited ≡ true))
      → IsSearch g s t (λ v. v ≡ u) k fuel visited queue
      → ScanVerdict g s t k fuel (scan t path es visited queue)
  unfolding scan
  scan-verdict [] visited queue sub rest inv = record {
    least = inv.least;
    levels = inv.levels;
    missed = inv.missed;
    closed = λ v m. elim (inv.closed v m) [
      | inl q ↦ inl q
      | inr (inl c) ↦ inr (inl c)
      | inr (inr o) ↦ inr (
          inl (
            subst (λ x. Closed g s t x visited) (sym o)
              (λ e i. elim (rest e i) [ inl b ↦ elim b [ ] | inr h ↦ h ])))
    ];
    near = inv.near;
    room = inv.room;
  }
  scan-verdict (e ∷ es) visited queue sub rest inv = elim (Bool-cases (has e.to visited)) [
    | inl h ↦
        rw (h, scan)
          (scan-verdict es visited queue (λ x i. sub x (inr i))
            (λ x i. elim (rest x i) [
              | inl (inl p) ↦ inr (rw p h)
              | inl (inr j) ↦ inl j
              | inr m ↦ inr m
            ])
            inv)
    | inr h ↦ elim (Bool-cases (e.to == t)) [
      | inl f ↦
          rw (h, f, scan)
            (subst (λ v. IsLeast g s t (v, path ++ e ∷ [])) ((eq_iff e.to t).0 f)
              (step-IsLeast e (sub e (inl refl)) inv h))
      | inr f ↦
          rw (h, f, scan)
            (scan-verdict es (add e.to visited) _ (λ x i. sub x (inr i))
              (λ x i. elim (rest x i) [
                | inl (inl p) ↦ inr (rw (p, has-add e.to e.to visited, eq_refl e.to) refl)
                | inl (inr j) ↦ inl j
                | inr m ↦ inr (has_more e.to x.to visited m)
              ])
              (enqueued e (sub e (inl refl)) inv h f))
    ]
  ]
