-- ===== src/SchemaGraph/Edges.antt =====
-- Chains of edges and walks in a foreign-key graph, and sets of visited tables.
use vexnor.Base.{
  In, ℕ, zero, suc, ◌+◌, ◌≤◌, ◌≡◌, inl, inr, refl, sym, subst, String, true, false, ◌||◌, List, [],
  ◌∷◌, ◌++◌, map, if◌then◌else◌, ◌==◌, length, arith, eq_iff, eq_refl, Bool-cases,
}
use vexnor.Base.Dict.{lookup, has, add}
use vexnor.SchemaGraph.{FkEdge, Graph, edges_of, targets}

-- The edges lead from `a` to `c`, one after the other.
abbrev pub Chain : Graph → (a : String) → List FkEdge → (c : String) → Type 0
Chain g a [] c = a ≡ c
Chain g a (e ∷ es) c = In e (edges_of g a) × Chain g e.to es c

-- A walk of so many edges.
abbrev pub Walks : Graph → (a : String) → ℕ → (c : String) → Type 0
Walks g a zero c = a ≡ c
Walks g a (suc n) c = (e : FkEdge) × In e (edges_of g a) × Walks g e.to n c

pub Walks-last :
    (g : Graph) (n : ℕ) (a c : String)
    → Walks g a (suc n) c
    → (b : String) × (e : FkEdge) × Walks g a n b × In e (edges_of g b) × (e.to ≡ c)
Walks-last g zero a c (e, i, w) = (a, e, refl, i, w)
Walks-last g (suc n) a c (e, i, w) =
    let (b, f, v, j, h) = Walks-last g n e.to c w in (b, f, (e, i, v), j, h)

pub Walks-snoc :
    (g : Graph) (n : ℕ) (a b : String) (e : FkEdge)
    → Walks g a n b
    → In e (edges_of g b)
    → Walks g a (suc n) e.to
Walks-snoc g zero a b e w i = (e, subst (λ x. In e (edges_of g x)) (sym w) i, refl)
Walks-snoc g (suc n) a b e (f, j, w) i = (f, j, Walks-snoc g n f.to b e w i)

pub Chain-Walks :
    (g : Graph) (p : List FkEdge) (a c : String) → Chain g a p c → Walks g a (length p) c
Chain-Walks g [] a c h = h
Chain-Walks g (e ∷ es) a c (i, h) = (e, i, Chain-Walks g es e.to c h)

pub Walks-Chain :
    (g : Graph) (n : ℕ) (a c : String)
    → Walks g a n c
    → (p : List FkEdge) × Chain g a p c × (length p ≡ n)
Walks-Chain g zero a c h = ([], h, refl)
Walks-Chain g (suc n) a c (e, i, w) =
    let (p, h, l) = Walks-Chain g n e.to c w in (e ∷ p, (i, h), omega (arith, l))

pub Chain-snoc :
    (g : Graph) (p : List FkEdge) (a b : String) (e : FkEdge)
    → Chain g a p b
    → In e (edges_of g b)
    → Chain g a (p ++ e ∷ []) e.to
Chain-snoc g [] a b e h i = (subst (λ x. In e (edges_of g x)) (sym h) i, refl)
Chain-snoc g (f ∷ fs) a b e (j, h) i = (j, Chain-snoc g fs f.to b e h i)

pub has-append : (k : String) (s t : List String) → has k (s ++ t) ≡ (has k s || has k t)
unfolding has
has-append k [] t = refl
has-append k (j ∷ s) t = ground (arith, has-append k s t)

pub has-add : (k j : String) (s : List String) → has j (add k s) ≡ (k == j || has j s)
unfolding add has
has-add k j s = elim (Bool-cases (has k s)) [
  | inl e ↦ elim (Bool-cases (k == j)) [
    | inl f ↦ rw (e, f) (subst (λ x. has x s ≡ true) ((eq_iff k j).0 f) e)
    | inr f ↦ simp (e, f)
  ]
  | inr e ↦ rw (e, has-append) (ground arith)
]

-- How many of the given texts are not in the set.
abbrev pub unvisited : List String → List String → ℕ
unvisited visited [] = 0
unvisited visited (x ∷ xs) =
    if has x visited then unvisited visited xs else suc (unvisited visited xs)

pub unvisited_le : (visited xs : List String) → unvisited visited xs ≤ length xs
unvisited_le visited [] = omega arith
unvisited_le visited (x ∷ xs) = ground (arith, unvisited_le visited xs)

unvisited-add_le :
    (k : String) (visited xs : List String) → unvisited (add k visited) xs ≤ unvisited visited xs
unvisited-add_le k visited [] = omega arith
unvisited-add_le k visited (x ∷ xs) =
    ground (arith, has-add k x visited, unvisited-add_le k visited xs)

pub unvisited-add :
    (k : String) (visited xs : List String)
    → has k xs ≡ true
    → has k visited ≡ false
    → unvisited (add k visited) xs + 1 ≤ unvisited visited xs
unfolding has
unvisited-add k visited [] h m = cc
unvisited-add k visited (x ∷ xs) h m = elim (Bool-cases (x == k)) [
  | inl e ↦
      let n = subst (λ y. has y visited ≡ false) (sym ((eq_iff x k).0 e)) m in
      rw (n, has-add k x visited, subst (λ y. (k == y) ≡ true) (sym ((eq_iff x k).0 e)) (eq_refl k))
        (omega (arith, unvisited-add_le k visited xs))
  | inr e ↦ ground (arith, has-add k x visited, unvisited-add k visited xs (rw e at h) m)
]

has-map :
    (e : FkEdge) (es : List FkEdge) → In e es → has e.to (map (λ (x : FkEdge). x.to) es) ≡ true
unfolding has
has-map e [] h = elim h [ ]
has-map e (f ∷ es) (inl h) = rw h (rw (eq_refl f.to) refl)
has-map e (f ∷ es) (inr h) = rw (has-map e es h) (ground arith)

-- The target of an edge of any table is among the targets of the graph.
pub has-targets :
    (e : FkEdge) (id : String) (g : Graph) → In e (edges_of g id) → has e.to (targets g) ≡ true
unfolding lookup has
has-targets e id [] h = elim h [ ]
has-targets e id ((j, es) ∷ g) h = elim (Bool-cases (j == id)) [
  | inl k ↦
      rw (has-append e.to (map (λ (x : FkEdge). x.to) es) (targets g), has-map e es (rw k at h))
        refl
  | inr k ↦
      rw
        (
          has-append e.to (map (λ (x : FkEdge). x.to) es) (targets g),
          has-targets e id g (rw k at h),
        )
        (ground arith)
]
