-- ===== src/BuildContext/Numbered.antt =====
-- What `addQuery` keeps of the queries of a context.
use vexnor.Base.{
  ◌≡◌, ◌⊎◌, inl, inr, refl, subst, ap, ℕ, zero, suc, ◌+◌, ◌<◌, String, Bool, true, false, Option,
  none, some, List, [], ◌∷◌, ◌++◌, length, In, In-append-left, In-append-right, arith, Bool-cases,
  eq_iff, eq_refl, ◌==◌,
}
use vexnor.Base.Dict.{
  Dict, lookup, insert, has_key, lookup-insert, has_key-insert, lookup-has_key, has_key-lookup,
  lookup-some-has_key, lookup-insert_cases, Distinct, Distinct-insert,
}
use vexnor.BuildContext.Queries.{
  Query, query, Inner, no_more, and_also, id_of, as_list, inner_queries, size, size_inner, size_all,
  QueryInfo, info_of, register,
}

-- The indices of the entries count up from the given one, and each stands at its query's identifier.
abbrev pub CountsFrom : ℕ → Dict QueryInfo → Type 0
CountsFrom n [] = Unit
CountsFrom n ((id, info) ∷ m) = (info.index ≡ n) × (id_of info.source ≡ id) × CountsFrom (suc n) m

-- Each query inside a known one is known, or waits in the queue.
abbrev pub IsClosed : List Query → Dict QueryInfo → Type 0
IsClosed queue m =
    (id : String) (info : QueryInfo) (q : Query)
    → lookup id m ≡ some info
    → In q (inner_queries info.source)
    → (has_key (id_of q) m ≡ true) ⊎ In q queue

pub record IsRegistry (queue : List Query) (m : Dict QueryInfo) : Type 0 where
  pub counted : CountsFrom 0 m
  pub distinct : Distinct m
  pub closed : IsClosed queue m

CountsFrom-insert :
    (n : ℕ) (id : String) (info : QueryInfo) (m : Dict QueryInfo)
    → has_key id m ≡ false
    → info.index ≡ n + length m
    → id_of info.source ≡ id
    → CountsFrom n m
    → CountsFrom n (insert id info m)
unfolding insert
CountsFrom-insert n id info [] k e q h = (omega (arith, e), q, tt)
CountsFrom-insert n id info ((j, other) ∷ m) k e q (h, p, r) = elim (Bool-cases (j == id)) [
  | inl x ↦ absurd (cc (rw x at k))
  | inr x ↦ rw x (h, p, CountsFrom-insert (suc n) id info m (rw x at k) (omega (arith, e)) q r)
]

length-insert :
    {V : Type 0} (id : String) (v : V) (m : Dict V)
    → has_key id m ≡ false
    → length (insert id v m) ≡ suc (length m)
unfolding insert
length-insert id v [] h = refl
length-insert id v ((j, w) ∷ m) h = ground (arith, length-insert id v m)

size_list : (inner : Inner) → size_all (as_list inner) ≡ size_inner inner
unfolding size_all
size_list no_more = refl
size_list (and_also q qs) = omega (arith, size_list qs)

size_all-append : (xs ys : List Query) → size_all (xs ++ ys) ≡ size_all xs + size_all ys
unfolding size_all
size_all-append [] ys = omega arith
size_all-append (x ∷ xs) ys = omega (arith, size_all-append xs ys)

size-inner_queries : (q : Query) → size q ≡ suc (size_all (inner_queries q))
unfolding size
size-inner_queries (query id label inner) = omega (arith, size_list inner)

-- What the loop makes of a queue and a map.
pub record Registers (queue : List Query) (m after : Dict QueryInfo) : Type 0 where
  pub kept :
      (id : String) (info : QueryInfo) → lookup id m ≡ some info → lookup id after ≡ some info
  pub known : (q : Query) → In q queue → has_key (id_of q) after ≡ true
  pub valid : IsRegistry [] after

drop_known :
    (q : Query) (queue : List Query) (m : Dict QueryInfo)
    → has_key (id_of q) m ≡ true
    → IsRegistry (q ∷ queue) m
    → IsRegistry queue m
drop_known q queue m k v = record {
  counted = v.counted;
  distinct = v.distinct;
  closed = λ id info c h i. elim (v.closed id info c h i) [
    | inl known ↦ inl known
    | inr (inl e) ↦ inl (rw (ap id_of e) k)
    | inr (inr later) ↦ inr later
  ];
}

insert_new :
    (override : Option Bool) (n : ℕ) (q : Query) (queue : List Query) (m : Dict QueryInfo)
    → has_key (id_of q) m ≡ false
    → n ≡ length m
    → IsRegistry (q ∷ queue) m
    → IsRegistry (queue ++ inner_queries q) (insert (id_of q) (info_of override n q) m)
unfolding info_of
insert_new override n q queue m k e v = record {
  counted = CountsFrom-insert 0 (id_of q) _ m k (omega (arith, e)) refl v.counted;
  distinct = Distinct-insert (id_of q) _ m v.distinct;
  closed = λ id info c h i. elim (lookup-insert_cases (id_of q) id _ info m h) [
    | inl (p, w) ↦ inr (
        In-append-right c queue (inner_queries q)
          (subst (λ x. In c (inner_queries x)) (ap (λ (x : QueryInfo). x.source) w) i))
    | inr old ↦ elim (v.closed id info c old i) [
      | inl known ↦ inl (rw (has_key-insert (id_of q) (id_of c) _ m, known) (ground arith))
      | inr (inl p) ↦
          inl (rw (has_key-insert (id_of q) (id_of c) _ m, p, eq_refl (id_of q)) (ground arith))
      | inr (inr later) ↦ inr (In-append-left c queue (inner_queries q) later)
    ]
  ];
}

module _ (q : Query) (queue : List Query) (m after : Dict QueryInfo) where
  Registers-known :
      has_key (id_of q) m ≡ true → Registers queue m after → Registers (q ∷ queue) m after
  Registers-known k r = record {
    kept = r.kept;
    known = λ c i. elim i [
      | inl e ↦
          let (info, found) = has_key-lookup (id_of q) m k in
          rw (ap id_of e) (lookup-some-has_key (id_of q) info after (r.kept (id_of q) info found))
      | inr later ↦ r.known c later
    ];
    valid = r.valid;
  }

  Registers-new :
      (info : QueryInfo)
      → has_key (id_of q) m ≡ false
      → Registers (queue ++ inner_queries q) (insert (id_of q) info m) after
      → Registers (q ∷ queue) m after
  Registers-new info k r = record {
    kept = λ id old h. r.kept id old (elim (Bool-cases (id_of q == id)) [
      | inl e ↦ absurd (
          cc (
            h,
            subst (λ x. lookup x m ≡ none) ((eq_iff (id_of q) id).0 e)
                (lookup-has_key (id_of q) m k),
          ))
      | inr e ↦ rw (lookup-insert (id_of q) id info m, e) h
    ]);
    known = λ c i. elim i [
      | inl e ↦ rw (ap id_of e) (
          lookup-some-has_key (id_of q) info after (
            r.kept (id_of q) info
              (rw (lookup-insert (id_of q) (id_of q) info m, eq_refl (id_of q)) refl)))
      | inr later ↦ r.known c (In-append-left c queue (inner_queries q) later)
    ];
    valid = r.valid;
  }

pub register_lem :
    (fuel : ℕ) (override : Option Bool) (start offset : ℕ) (queue : List Query) (m : Dict QueryInfo)
    → size_all queue < fuel
    → start + offset ≡ length m
    → IsRegistry queue m
    → (after : Dict QueryInfo) × (register fuel override start offset queue m ≡ some after)
      × Registers queue m after
unfolding register size_all
register_lem zero override start offset queue m h e v = absurd (omega arith)
register_lem (suc fuel) override start offset [] m h e v =
    (m, refl, record { kept = λ id info k. k; known = λ q i. absurd (elim i [ ]); valid = v })
register_lem (suc fuel) override start offset (q ∷ queue) m h e v =
    elim (Bool-cases (has_key (id_of q) m)) [
      | inl k ↦
          let (after, p, r) =
            register_lem fuel override start offset queue m (omega (arith, size-inner_queries q)) e
              (drop_known q queue m k v) in
          (after, rw (k, register) p, Registers-known q queue m after k r)
      | inr k ↦
          let info = info_of override (start + offset) q in
          let (after, p, r) =
            register_lem fuel override start (offset + 1) (queue ++ inner_queries q)
              (insert (id_of q) info m)
              (omega (arith, size-inner_queries q, size_all-append queue (inner_queries q)))
              (omega (arith, length-insert (id_of q) info m k))
              (insert_new override (start + offset) q queue m k e v) in
          (after, rw (k, register) p, Registers-new q queue m after info k r)
    ]
