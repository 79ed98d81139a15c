-- ===== src/Handler/Leaks.antt =====
-- What the names that a request adds to the rules of a parameter do to later requests.
use vexnor.Base.{
  ◌≡◌, refl, ap, sym, ◌∙◌, inl, inr, subst, String, Bool, true, false, Option, none, some, List, [],
  ◌∷◌, ◌++◌, ◌==◌, if◌then◌else◌, Bool-cases, eq_iff, eq_refl, In, In-append-left, In-append-right,
}
use vexnor.Base.Dict.{lookup, insert, lookup-insert}
use vexnor.Errors.{Outcome, returned, threw, Action, ◌>>◌, pure, continue, or_else}
use vexnor.Rendering.Values.{
  Value, undefined, null, context, primitive, object, Fields, resolve_path,
}
use vexnor.Handler.Validation.{
  HandlerParam, Names, extended, takes_aliases, check_extended, check_own, check_param, check_all,
}

-- The rules of the parameter allow the name.
abbrev pub Allowed : String → (param : String) → Names → Type 0
Allowed x param names = In x (or_else (lookup param names) [])

In-extended-old :
    (x : String) (o : Option (List String)) (aliases : List String)
    → In x (or_else o [])
    → In x (extended o aliases)
unfolding extended
In-extended-old x none aliases h = elim h [ ]
In-extended-old x (some names) aliases h = In-append-left x names aliases h

In-extended-new :
    (x : String) (o : Option (List String)) (aliases : List String)
    → In x aliases
    → In x (extended o aliases)
unfolding extended
In-extended-new x none aliases h = h
In-extended-new x (some names) aliases h = In-append-right x names aliases h

-- Names that are pushed for one parameter leave what others allow.
Allowed-insert :
    (x param key : String) (aliases : List String) (names : Names)
    → Allowed x param names
    → Allowed x param (insert key (extended (lookup key names) aliases) names)
Allowed-insert x param key aliases names h = elim (Bool-cases (key == param)) [
  | inl e ↦
      rw (lookup-insert key param (extended (lookup key names) aliases) names, e)
        (In-extended-old x (lookup key names) aliases
          (subst (λ k. In x (or_else (lookup k names) [])) (sym ((eq_iff key param).0 e)) h))
  | inr e ↦ rw (lookup-insert key param (extended (lookup key names) aliases) names, e) h
]

module _ {P : Type 0} (x param : String) (aliases : List String) (params : Fields P) where
  Allowed-check_param :
      (p : HandlerParam P) (names : Names)
      → Allowed x param names
      → Allowed x param (check_param aliases params p names).1
  unfolding check_param check_extended check_own
  Allowed-check_param p names h = go (takes_aliases p aliases) (resolve_path params p.name)
    where
      go :
          (b : Bool) (v : Value P)
          → Allowed x param ((if b then check_extended p aliases v else check_own p params) names).1
      go false v = h
      go true undefined = h
      go true null = Allowed-insert x param p.name aliases names h
      go true context = Allowed-insert x param p.name aliases names h
      go true (primitive a) = Allowed-insert x param p.name aliases names h
      go true (object fs) = Allowed-insert x param p.name aliases names h

  -- After a check that passes, the rest of the checks goes on from its names.
  then_returned :
      (o : Outcome (Unit {0})) (names : Names) (k : Action Names (Unit {0}))
      → (continue (λ _. k) o names).0 ≡ returned tt
      → continue (λ _. k) o names ≡ k names
  then_returned (returned tt) names k h = refl
  then_returned (threw e) names k h = absurd (cc h)

  Allowed-check_all :
      (ps : List (HandlerParam P)) (names : Names)
      → Allowed x param names
      → Allowed x param (check_all aliases params ps names).1
  unfolding check_all pure ◌>>◌
  Allowed-check_all [] names h = h
  Allowed-check_all (p ∷ ps) names h =
      go (check_param aliases params p names).0
        (Allowed-check_all ps (check_param aliases params p names).1
          (Allowed-check_param p names h))
        (Allowed-check_param p names h)
    where
      t : Names
      t = (check_param aliases params p names).1

      go :
          (o : Outcome (Unit {0}))
          → Allowed x param (check_all aliases params ps t).1
          → Allowed x param t
          → Allowed x param (continue (λ _. check_all aliases params ps) o t).1
      go (returned tt) a b = a
      go (threw e) a b = b

pub Allowed-pushed :
    {P : Type 0} (x : String) (aliases : List String) (params fs : Fields P) (p : HandlerParam P)
    (names : Names)
    → In x aliases
    → takes_aliases p aliases ≡ true
    → resolve_path params p.name ≡ object fs
    → Allowed x p.name (check_param aliases params p names).1
unfolding check_param check_extended
Allowed-pushed x aliases params fs p names i takes v =
    rw
      (
        takes,
        v,
        lookup-insert p.name p.name (extended (lookup p.name names) aliases) names,
        eq_refl p.name,
      )
      (In-extended-new x (lookup p.name names) aliases i)

-- Where validateParams accepts a request, every alias that its select gives is afterwards a name
-- that the rules of orderBy, or of havingBy, allow, if the request has an object there and the
-- parameter has object rules: also for the requests that come later.
pub check_all-leaks :
    {P : Type 0} (x : String) (aliases : List String) (params fs : Fields P) (p : HandlerParam P)
    (before after : List (HandlerParam P)) (names : Names)
    → In x aliases
    → takes_aliases p aliases ≡ true
    → resolve_path params p.name ≡ object fs
    → (check_all aliases params (before ++ p ∷ after) names).0 ≡ returned tt
    → Allowed x p.name (check_all aliases params (before ++ p ∷ after) names).1
unfolding check_all ◌>>◌
check_all-leaks x aliases params fs p [] after names i takes v accepted =
    rw
      (then_returned x p.name aliases params (check_param aliases params p names).0
        (check_param aliases params p names).1 (check_all aliases params after) accepted)
      (Allowed-check_all x p.name aliases params after (check_param aliases params p names).1
        (Allowed-pushed x aliases params fs p names i takes v))
check_all-leaks x aliases params fs p (q ∷ before) after names i takes v accepted = rw e (
    check_all-leaks x aliases params fs p before after (check_param aliases params q names).1 i
      takes v (ap (λ r. r.0) (sym e) ∙ accepted))
  where
    e :
        check_all aliases params (q ∷ before ++ p ∷ after) names
        ≡ check_all aliases params (before ++ p ∷ after) (check_param aliases params q names).1
    e =
        then_returned x p.name aliases params (check_param aliases params q names).0
          (check_param aliases params q names).1 (check_all aliases params (before ++ p ∷ after))
          accepted
