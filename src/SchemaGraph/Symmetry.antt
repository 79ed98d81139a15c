-- ===== src/SchemaGraph/Symmetry.antt =====
-- The graph of `getFkGraph`: which edges it has, and that it can be walked in both directions.
use mathlib.Core.Option
use vexnor.Base.{
  In, In-append-left, ℕ, zero, suc, ◌≡◌, ◌⊎◌, inl, inr, refl, sym, subst, ap, String, false, Option,
  none, some, List, [], ◌∷◌, ◌++◌, if◌then◌else◌, ◌==◌, length, arith, eq_iff, eq_refl, Bool-cases,
}
use vexnor.Base.Dict.{lookup, has_key, lookup-insert, lookup-has_key}
use vexnor.Errors.{or_else}
use vexnor.SchemaGraph.{
  FkEdge, Graph, Table, Tables, TableForeignKey, edges_of, ensure, push, reverse, edge_of, add_edge,
  add_edges, add_rows, fk_graph, find_path,
}
use vexnor.SchemaGraph.Edges.{Walks, Walks-snoc}
use vexnor.SchemaGraph.Search.{Verdict}
use vexnor.SchemaGraph.Shortest.{find_path-Verdict}
use vexnor.SchemaGraph.Edges.{Chain-Walks}

-- Each edge stands at the table it leaves, and its reverse at the table it enters.
abbrev pub IsSymmetric : Graph → Type 0
IsSymmetric g =
    (v : String) (e : FkEdge)
    → In e (edges_of g v)
    → (e.from ≡ v) × In (reverse e) (edges_of g e.to)

In-last : (x : FkEdge) (xs : List FkEdge) → In x (xs ++ x ∷ [])
In-last x [] = inl refl
In-last x (y ∷ xs) = inr (In-last x xs)

In-snoc : (x y : FkEdge) (xs : List FkEdge) → In x (xs ++ y ∷ []) → In x xs ⊎ (x ≡ y)
In-snoc x y [] (inl h) = inr h
In-snoc x y [] (inr h) = elim h [ ]
In-snoc x y (z ∷ xs) (inl h) = inl (inl h)
In-snoc x y (z ∷ xs) (inr h) = elim (In-snoc x y xs h) [ inl i ↦ inl (inr i) | inr e ↦ inr e ]

edges_of-push :
    (id v : String) (e : FkEdge) (g : Graph)
    → edges_of (push id e g) v ≡ (if id == v then edges_of g id ++ e ∷ [] else edges_of g v)
edges_of-push id v e g = rw lookup-insert (ground (arith, eq_iff id v))

edges_of-ensure : (id v : String) (g : Graph) → edges_of (ensure id g) v ≡ edges_of g v
edges_of-ensure id v g = elim (Bool-cases (has_key id g)) [
  | inl h ↦ rw h refl
  | inr h ↦ rw h (
      rw lookup-insert (elim (Bool-cases (id == v)) [
        | inl e ↦ rw e (
            subst (λ x. [] ≡ edges_of g x) ((eq_iff id v).0 e)
              (sym (ap (λ o. or_else o []) (lookup-has_key id g h))))
        | inr e ↦ rw e refl
      ]))
]

In-push-new : (id : String) (e : FkEdge) (g : Graph) → In e (edges_of (push id e g) id)
In-push-new id e g = rw (edges_of-push id id e g, eq_refl id) (In-last e (edges_of g id))

In-push-old :
    (id v : String) (x e : FkEdge) (g : Graph)
    → In x (edges_of g v)
    → In x (edges_of (push id e g) v)
In-push-old id v x e g h = rw (edges_of-push id v e g) (elim (Bool-cases (id == v)) [
  | inl k ↦ rw k (
      In-append-left x (edges_of g id) _
        (subst (λ y. In x (edges_of g y)) (sym ((eq_iff id v).0 k)) h))
  | inr k ↦ rw k h
])

In-push-inverse :
    (id v : String) (x e : FkEdge) (g : Graph)
    → In x (edges_of (push id e g) v)
    → ((id ≡ v) × (x ≡ e)) ⊎ In x (edges_of g v)
In-push-inverse id v x e g h = elim (Bool-cases (id == v)) [
  | inl k ↦ elim (In-snoc x e (edges_of g id) (rw (edges_of-push id v e g, k) at h)) [
    | inl i ↦ inr (subst (λ y. In x (edges_of g y)) ((eq_iff id v).0 k) i)
    | inr p ↦ inl ((eq_iff id v).0 k, p)
  ]
  | inr k ↦ inr (rw (edges_of-push id v e g, k) at h)
]

In-ensure :
    (id v : String) (x : FkEdge) (g : Graph) → In x (edges_of g v) → In x (edges_of (ensure id g) v)
In-ensure id v x g h = rw (edges_of-ensure id v g) h

-- Both directions of an edge.
abbrev both : FkEdge → Graph → Graph
both e g = push e.to (reverse e) (ensure e.to (push e.from e g))

In-both-old :
    (v : String) (x e : FkEdge) (g : Graph) → In x (edges_of g v) → In x (edges_of (both e g) v)
In-both-old v x e g h =
    In-push-old e.to v x (reverse e) _ (In-ensure e.to v x _ (In-push-old e.from v x e g h))

In-both-new : (e : FkEdge) (g : Graph) → In e (edges_of (both e g) e.from)
In-both-new e g =
    In-push-old e.to e.from e (reverse e) _ (In-ensure e.to e.from e _ (In-push-new e.from e g))

both-IsSymmetric : (e : FkEdge) (g : Graph) → IsSymmetric g → IsSymmetric (both e g)
both-IsSymmetric e g sg v x h =
    elim (In-push-inverse e.to v x (reverse e) (ensure e.to (push e.from e g)) h) [
      | inl (p, q) ↦
          subst (λ y. (y.from ≡ v) × In (reverse y) (edges_of (both e g) y.to)) (sym q)
            (p, In-both-new e g)
      | inr i ↦
          elim (In-push-inverse e.from v x e g
            (rw (edges_of-ensure e.to v (push e.from e g)) at i)) [
              | inl (p, q) ↦
                  subst (λ y. (y.from ≡ v) × In (reverse y) (edges_of (both e g) y.to)) (sym q)
                    (p, In-push-new e.to (reverse e) _)
              | inr j ↦ ((sg v x j).0, In-both-old x.to (reverse x) e g (sg v x j).1)
            ]
    ]

module _ (ts : Tables) where
  add_edge-IsSymmetric : (e : FkEdge) (g : Graph) → IsSymmetric g → IsSymmetric (add_edge ts e g)
  unfolding add_edge
  add_edge-IsSymmetric e g sg = elim (Bool-cases (has_key e.to ts)) [
    | inl h ↦ rw h (both-IsSymmetric e g sg)
    | inr h ↦ rw h sg
  ]

  add_edges-IsSymmetric :
      (id : String) (t : Table) (fks : List TableForeignKey) (g : Graph)
      → IsSymmetric g
      → IsSymmetric (add_edges ts id t fks g)
  unfolding add_edges
  add_edges-IsSymmetric id t [] g sg = sg
  add_edges-IsSymmetric id t (fk ∷ fks) g sg =
      add_edges-IsSymmetric id t fks _ (add_edge-IsSymmetric (edge_of id t fk) g sg)

  ensure-IsSymmetric : (id : String) (g : Graph) → IsSymmetric g → IsSymmetric (ensure id g)
  ensure-IsSymmetric id g sg v e h =
      let r = sg v e (rw (edges_of-ensure id v g) at h) in
      (r.0, In-ensure id e.to (reverse e) g r.1)

  add_rows-IsSymmetric :
      (rows : Tables) (g : Graph) → IsSymmetric g → IsSymmetric (add_rows ts rows g)
  unfolding add_rows
  add_rows-IsSymmetric [] g sg = sg
  add_rows-IsSymmetric ((id, t) ∷ rows) g sg =
      add_rows-IsSymmetric rows _ (add_edges-IsSymmetric id t t.fk _ (ensure-IsSymmetric id g sg))

-- In the graph of any tables, each edge stands at the table that it leaves, and its reverse, with
-- the columns swapped, at the table that it enters.
pub fk_graph-IsSymmetric : (ts : Tables) → IsSymmetric (fk_graph ts)
unfolding fk_graph
fk_graph-IsSymmetric ts = add_rows-IsSymmetric ts ts [] (λ v e h. unfold lookup in elim h [ ])

Walks-reverse : (g : Graph) (n : ℕ) (a c : String) → IsSymmetric g → Walks g a n c → Walks g c n a
Walks-reverse g zero a c sg w = sym w
Walks-reverse g (suc n) a c sg (e, i, w) =
    subst (Walks g c (suc n)) (sg a e i).0
      (Walks-snoc g n c e.to (reverse e) (Walks-reverse g n e.to c sg w) (sg a e i).1)

same_length :
    (g : Graph) (s t : String) (p q : Option (List FkEdge))
    → IsSymmetric g
    → Verdict g s t p
    → Verdict g t s q
    → Option.map length p ≡ Option.map length q
same_length g s t none none sg v w = refl
same_length g s t none (some q) sg v w =
    absurd (v (length q) (Walks-reverse g _ t s sg (Chain-Walks g q t s w.0)))
same_length g s t (some p) none sg v w =
    absurd (w (length p) (Walks-reverse g _ s t sg (Chain-Walks g p s t v.0)))
same_length g s t (some p) (some q) sg v w = ap some (
    omega (
      arith,
      v.1 (length q) (Walks-reverse g _ t s sg (Chain-Walks g q t s w.0)),
      w.1 (length p) (Walks-reverse g _ s t sg (Chain-Walks g p s t v.0)),
    ))

-- In the graph of any tables, there is a path from the one table to the other exactly where there
-- is one back, and the two that the search finds have the same number of steps.
pub find_path-symmetric :
    (ts : Tables) (s t : String)
    → (s == t) ≡ false
    → (t == s) ≡ false
    → Option.map length (find_path (fk_graph ts) s t)
      ≡ Option.map length (find_path (fk_graph ts) t s)
find_path-symmetric ts s t ne en =
    same_length (fk_graph ts) s t _ _ (fk_graph-IsSymmetric ts)
      (find_path-Verdict (fk_graph ts) s t ne) (find_path-Verdict (fk_graph ts) t s en)
