-- ===== src/SchemaGraph/Shortest.antt =====
-- The search of `joinPath` finds a shortest path, and finds one wherever there is one.
use vexnor.Base.{
  ℕ, zero, suc, ◌+◌, ◌≤◌, ◌≡◌, inl, inr, refl, sym, subst, String, true, false, Option, none, some,
  List, [], ◌∷◌, ◌==◌, length, arith, eq_iff, eq_refl, Bool-cases, All,
}
use vexnor.Base.Dict.{has}
use vexnor.SchemaGraph.{
  FkEdge, Graph, edges_of, targets, Scan, found, scanned, scan, search, proceed, find_path,
}
use vexnor.SchemaGraph.Edges.{Chain, Walks, Walks-last, Chain-Walks, unvisited_le}
use vexnor.SchemaGraph.Search.{
  Item, Queued, Levels-tail, Levels-next, IsLeast, IsSearch, Nothing, Verdict, ScanVerdict,
  scan-verdict,
}

Queued-length :
    (g : Graph) (s t : String) (k m : ℕ) (v : String) (queue : List Item)
    → Queued v queue
    → All (λ (y : Item). length y.1 ≡ k + 1) queue
    → All (IsLeast g s t) queue
    → Walks g s m v
    → k + 1 ≤ m
Queued-length g s t k m v [] q h l w = elim q [ ]
Queued-length g s t k m v (x ∷ queue) (inl e) h l w =
    omega (arith, h.0, l.0.1 m (subst (λ y. Walks g s m y) e w))
Queued-length g s t k m v (x ∷ queue) (inr q) h l w = Queued-length g s t k m v queue q h.1 l.1 w

module _ (g : Graph) (s t : String) where
  -- When the queue is at the next level, every table of that level is visited.
  near-next :
      {k fuel : ℕ} {visited : List String} {queue : List Item}
      → IsSearch g s t (Nothing g s t) k fuel visited queue
      → All (λ (y : Item). length y.1 ≡ k + 1) queue
      → (m : ℕ) (v : String) → Walks g s m v
      → m ≤ k + 1
      → has v visited ≡ true
  near-next inv h zero v w le = inv.near zero v w (omega arith)
  near-next {k} {visited = visited} {queue = queue} inv h (suc m) v w le =
      let (b, e, w', i, p) = Walks-last g m s v w in
      subst (λ x. has x visited ≡ true) p
        (elim (inv.closed b (inv.near m b w' (omega (arith, le)))) [
          | inl q ↦ absurd (omega (arith, le, Queued-length g s t k m b queue q h inv.least w'))
          | inr (inl c) ↦ c e i
          | inr (inr o) ↦ elim o [ ]
        ])

  advance :
      {k fuel : ℕ} {visited : List String} {queue : List Item}
      → IsSearch g s t (Nothing g s t) k fuel visited queue
      → All (λ (y : Item). length y.1 ≡ k + 1) queue
      → IsSearch g s t (Nothing g s t) (k + 1) fuel visited queue
  advance {k} {queue = queue} inv h = record {
    least = inv.least;
    levels = Levels-next k queue h;
    missed = inv.missed;
    closed = inv.closed;
    near = near-next inv h;
    room = inv.room;
  }

  -- Once the queue is empty, every table that a walk reaches is visited.
  exhausted :
      {k fuel : ℕ} {visited : List String}
      → IsSearch g s t (Nothing g s t) k fuel visited []
      → (m : ℕ) (v : String) → Walks g s m v
      → has v visited ≡ true
  exhausted inv zero v w = inv.near zero v w (omega arith)
  exhausted {visited = visited} inv (suc m) v w =
      let (b, e, w', i, p) = Walks-last g m s v w in
      subst (λ x. has x visited ≡ true) p
        (elim (inv.closed b (exhausted inv m b w')) [
          | inl q ↦ elim q [ ]
          | inr (inl c) ↦ c e i
          | inr (inr o) ↦ elim o [ ]
        ])

  empty-Verdict :
      {k fuel : ℕ} {visited : List String}
      → IsSearch g s t (Nothing g s t) k fuel visited []
      → Verdict g s t none
  empty-Verdict inv m w = cc (exhausted inv m t w, inv.missed)

  -- The item at the head is at the level, or the level is raised.
  head_level :
      {k fuel : ℕ} {visited : List String} {x : Item} {queue : List Item}
      → IsSearch g s t (Nothing g s t) k fuel visited (x ∷ queue)
      → (j : ℕ) × IsSearch g s t (Nothing g s t) j fuel visited (x ∷ queue) × (length x.1 ≡ j)
  head_level {k} inv = elim inv.levels [
    | inl (h, r) ↦ (k, inv, h)
    | inr h ↦ (k + 1, advance inv h, h.0)
  ]

  popped :
      {k fuel : ℕ} {visited : List String} {u : String} {path : List FkEdge} {queue : List Item}
      → IsSearch g s t (Nothing g s t) k (suc fuel) visited ((u, path) ∷ queue)
      → IsSearch g s t (λ v. v ≡ u) k fuel visited queue
  popped {k} {u = u} {path} {queue} inv = record {
    least = inv.least.1;
    levels = Levels-tail k (u, path) queue inv.levels;
    missed = inv.missed;
    closed = λ v m. elim (inv.closed v m) [
      | inl (inl q) ↦ inr (inr q)
      | inl (inr q) ↦ inl q
      | inr (inl c) ↦ inr (inl c)
      | inr (inr o) ↦ elim o [ ]
    ];
    near = inv.near;
    room = omega (arith, inv.room);
  }

  proceed-Verdict :
      (k fuel : ℕ) (r : Scan)
      → ((visited : List String) (queue : List Item)
          → IsSearch g s t (Nothing g s t) k fuel visited queue
          → Verdict g s t (search g t fuel visited queue))
      → ScanVerdict g s t k fuel r
      → Verdict g s t (proceed (search g t fuel) r)
  proceed-Verdict k fuel (found path) next h = h
  proceed-Verdict k fuel (scanned visited queue) next inv = next visited queue inv

  search-Verdict :
      (k fuel : ℕ) (visited : List String) (queue : List Item)
      → IsSearch g s t (Nothing g s t) k fuel visited queue
      → Verdict g s t (search g t fuel visited queue)
  unfolding search
  search-Verdict k zero visited [] inv = empty-Verdict inv
  search-Verdict k zero visited (x ∷ queue) inv = absurd (omega (arith, inv.room))
  search-Verdict k (suc fuel) visited [] inv = empty-Verdict inv
  search-Verdict k (suc fuel) visited ((u, path) ∷ queue) inv =
      let (j, at, level) = head_level inv in
      proceed-Verdict j fuel (scan t path (edges_of g u) visited queue) (search-Verdict j fuel) (
        scan-verdict g s t j fuel u path at.least.0 level (edges_of g u) visited queue (λ e i. i)
          (λ e i. inl i) (popped at))

  start :
      (s == t) ≡ false
      → IsSearch g s t (Nothing g s t) 0 (suc (length (targets g))) (s ∷ []) ((s, []) ∷ [])
  unfolding has
  start ne = record {
    least = ((refl, λ m w. omega arith), tt);
    levels = inl (refl, tt);
    missed = rw ne refl;
    closed = λ v m. elim (Bool-cases (s == v)) [
      | inl e ↦ inl (inl (sym ((eq_iff s v).0 e)))
      | inr e ↦ absurd (ground (arith, m, e))
    ];
    near = λ m v w le. near_start m v w le;
    room = omega (arith, unvisited_le (s ∷ []) (targets g));
  }
    where
      near_start : (m : ℕ) (v : String) → Walks g s m v → m ≤ 0 → has v (s ∷ []) ≡ true
      near_start zero v w le = rw (w, eq_refl v) refl
      near_start (suc m) v w le = absurd (omega (arith, le))

  pub find_path-Verdict : (s == t) ≡ false → Verdict g s t (find_path g s t)
  unfolding find_path
  find_path-Verdict ne = search-Verdict 0 _ (s ∷ []) ((s, []) ∷ []) (start ne)

-- The path that the search finds leads from the one table to the other, and no chain of edges
-- between them is shorter.
pub find_path-shortest :
    (g : Graph) (s t : String) (path : List FkEdge)
    → (s == t) ≡ false
    → find_path g s t ≡ some path
    → Chain g s path t × ((q : List FkEdge) → Chain g s q t → length path ≤ length q)
find_path-shortest g s t path ne h =
    let v = subst (Verdict g s t) h (find_path-Verdict g s t ne) in
    (v.0, λ q c. v.1 (length q) (Chain-Walks g q s t c))

Verdict-some :
    (g : Graph) (s t : String) (m : ℕ) (r : Option (List FkEdge))
    → Verdict g s t r
    → Walks g s m t
    → (path : List FkEdge) × (r ≡ some path)
Verdict-some g s t m none v w = absurd (v m w)
Verdict-some g s t m (some path) v w = (path, refl)

-- Wherever a chain of edges leads from the one table to the other, the search finds a path: its
-- turns, one for each edge and one for the start, are enough for any graph.
pub find_path_complete :
    (g : Graph) (s t : String) (q : List FkEdge)
    → (s == t) ≡ false
    → Chain g s q t
    → (path : List FkEdge) × (find_path g s t ≡ some path)
find_path_complete g s t q ne c =
    Verdict-some g s t (length q) (find_path g s t) (find_path-Verdict g s t ne)
      (Chain-Walks g q s t c)
