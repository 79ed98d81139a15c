-- ===== src/BuildContext/Nesting.antt =====
-- What `next` makes of parentheses that match.
use mathlib.Core.List.{append_assoc, append-nil}
use vexnor.Base.{
  ◌≡◌, refl, sym, subst, String, Bool, false, Option, none, some, List, [], ◌∷◌, ◌++◌, ◌==◌, arith,
}
use vexnor.Base.Int.{ℤ, inc, ◌<ℤ◌, dec-inc, lt-inc, lt-inc_of_lt, int_eq_refl, int_eq_of_lt}
use vexnor.BuildContext.Keywords.{
  KeywordState, Opening, nothing, keeping, consuming, top, pop, opening, next_meaningful,
  open_context, close_context, next_token, next_tokens, and_then,
}

-- Each parenthesis of the list has its partner.
pub data Balanced : List String → Type 0 where
  empty : Balanced []
  word :
      {t : String} {ts : List String}
      → (t == "(") ≡ false
      → (t == ")") ≡ false
      → Balanced ts
      → Balanced (t ∷ ts)
  group :
      {inner rest tokens : List String}
      → Balanced inner
      → Balanced rest
      → tokens ≡ "(" ∷ (inner ++ ")" ∷ rest)
      → Balanced tokens

abbrev pub state : List (List String) → List ℤ → ℤ → KeywordState
state stacks context_depths depth = record {
  stacks = stacks;
  context_depths = context_depths;
  depth = depth;
}

module _ (is_blank : String → Bool) where
  next_tokens-append :
      (xs ys rest : List String) (s : KeywordState)
      → next_tokens is_blank (xs ++ ys) rest s
        ≡ and_then (next_tokens is_blank xs (ys ++ rest) s) (next_tokens is_blank ys rest)
  unfolding next_tokens
  next_tokens-append [] ys rest s = refl
  next_tokens-append (x ∷ xs) ys rest s =
      rw (append_assoc xs ys rest)
        (go (next_token is_blank x (xs ++ (ys ++ rest)) s) (next_tokens-append xs ys rest))
    where
      go :
          (o : Option KeywordState)
          → ((s' : KeywordState)
              → next_tokens is_blank (xs ++ ys) rest s'
                ≡ and_then (next_tokens is_blank xs (ys ++ rest) s') (next_tokens is_blank ys rest))
          → and_then o (next_tokens is_blank (xs ++ ys) rest)
            ≡ and_then
                (and_then o (next_tokens is_blank xs (ys ++ rest)))
                (next_tokens is_blank ys rest)
      go none ih = refl
      go (some s') ih = ih s'

close_kept :
    (k m : List String) (ks : List (List String)) (d : ℤ) (ds : List ℤ) (z : ℤ)
    → d <ℤ z
    → close_context (state (k ∷ m ∷ ks) (d ∷ ds) (inc z)) ≡ state (k ∷ m ∷ ks) (d ∷ ds) z
unfolding close_context
close_kept k m ks d ds z h = rw (dec-inc z, int_eq_of_lt d z h) (ground arith)

close_popped :
    (new k : List String) (ks : List (List String)) (ds : List ℤ) (z : ℤ)
    → close_context (state (new ∷ k ∷ ks) (z ∷ ds) (inc z)) ≡ state (k ∷ ks) ds z
unfolding close_context
close_popped new k ks ds z = rw (dec-inc z, int_eq_refl z) (ground arith)

-- A run over the tokens ends in the same contexts at the same depth; the innermost keyword stack
-- may have grown or shrunk.
abbrev pub Nested :
    (String → Bool)
    → (tokens rest : List String) → List String
    → List (List String)
    → List ℤ
    → ℤ
    → Type 0
Nested is_blank tokens rest k ks ds z =
    (k' : List String) × (next_tokens is_blank tokens rest (state (k ∷ ks) ds z)
      ≡ some (state (k' ∷ ks) ds z))

-- The state behind an opening parenthesis, by the context that it opens.
abbrev opened : Opening → List String → List (List String) → List ℤ → ℤ → KeywordState
opened nothing k ks ds z = state (k ∷ ks) ds (inc z)
opened (keeping new) k ks ds z = state (new ∷ k ∷ ks) (z ∷ ds) (inc z)
opened (consuming new) k ks ds z = state (new ∷ pop k ∷ ks) (z ∷ ds) (inc z)

module _ (is_blank : String → Bool) where
  -- From any state between a context's opening and its closing.
  abbrev Nests : (tokens : List String) → Type 0
  Nests tokens =
      (rest k m : List String) (ks : List (List String)) (d : ℤ) (ds : List ℤ) (z : ℤ)
      → d <ℤ z
      → Nested is_blank tokens rest k (m ∷ ks) (d ∷ ds) z

  next_open :
      (rest k : List String) (ks : List (List String)) (ds : List ℤ) (z : ℤ)
      → next_token is_blank "(" rest (state (k ∷ ks) ds z)
        ≡ some (opened (opening (top k) (next_meaningful is_blank rest)) k ks ds z)
  unfolding next_token
  next_open rest k ks ds z = go (opening (top k) (next_meaningful is_blank rest))
    where
      go :
          (o : Opening)
          → some (open_context o k ks (state (k ∷ ks) ds z)) ≡ some (opened o k ks ds z)
      go nothing = refl
      go (keeping new) = refl
      go (consuming new) = refl

  -- What stands between the parentheses, and the closing one.
  group_closed :
      (o : Opening) (inner after k m : List String) (ks : List (List String)) (d : ℤ) (ds : List ℤ)
      (z : ℤ)
      → Nests inner
      → d <ℤ z
      → (k' : List String) × (and_then
            (next_tokens is_blank inner (")" ∷ after) (opened o k (m ∷ ks) (d ∷ ds) z))
            (next_token is_blank ")" after)
          ≡ some (state (k' ∷ m ∷ ks) (d ∷ ds) z))
  unfolding next_token
  group_closed nothing inner after k m ks d ds z nests h =
      let (k', e) = nests (")" ∷ after) k m ks d ds (inc z) (lt-inc_of_lt d z h) in
      (k', rw (e, close_kept k' m ks d ds z h) refl)
  group_closed (keeping new) inner after k m ks d ds z nests h =
      let (k', e) = nests (")" ∷ after) new k (m ∷ ks) z (d ∷ ds) (inc z) (lt-inc z) in
      (k, rw (e, close_popped k' k (m ∷ ks) (d ∷ ds) z) refl)
  group_closed (consuming new) inner after k m ks d ds z nests h =
      let (k', e) = nests (")" ∷ after) new (pop k) (m ∷ ks) z (d ∷ ds) (inc z) (lt-inc z) in
      (pop k, rw (e, close_popped k' (pop k) (m ∷ ks) (d ∷ ds) z) refl)

  and_then_assoc :
      (o : Option KeywordState) (f g : KeywordState → Option KeywordState)
      → and_then o (λ s. and_then (f s) g) ≡ and_then (and_then o f) g
  and_then_assoc none f g = refl
  and_then_assoc (some s) f g = refl

  -- A group and what stands behind it.
  group-Nests :
      (inner more : List String) → Nests inner → Nests more → Nests ("(" ∷ (inner ++ ")" ∷ more))
  unfolding next_tokens
  group-Nests inner more nests behind rest k m ks d ds z h =
      let after = more ++ rest in
      let o = opening (top k) (next_meaningful is_blank ((inner ++ ")" ∷ more) ++ rest)) in
      let (k', e) = group_closed o inner after k m ks d ds z nests h in
      let (k'', e') = behind rest k' m ks d ds z h in
      (
        k'',
        rw
            (
              next_open ((inner ++ ")" ∷ more) ++ rest) k (m ∷ ks) (d ∷ ds) z,
              next_tokens-append is_blank inner (")" ∷ more) rest (opened o k (m ∷ ks) (d ∷ ds) z),
              and_then_assoc
                  (next_tokens is_blank inner (")" ∷ after) (opened o k (m ∷ ks) (d ∷ ds) z))
                  (next_token is_blank ")" after) (next_tokens is_blank more rest),
              e,
            )
            e',
      )

  Balanced-Nests : {tokens : List String} → Balanced tokens → Nests tokens
  unfolding next_tokens
  Balanced-Nests empty rest k m ks d ds z h = (k, refl)
  Balanced-Nests (word {t = t} {ts = ts} p q b) rest k m ks d ds z h =
      let (k', e) = Balanced-Nests b rest (t ∷ k) m ks d ds z h in
      (k', unfold next_token in rw (p, q) e)
  Balanced-Nests (group {inner = inner} {rest = more} b c eq) rest k m ks d ds z h =
      subst Nests (sym eq) (group-Nests inner more (Balanced-Nests b) (Balanced-Nests c)) rest k m
        ks d ds z h

  -- Inside a parenthesis that opened a context, `next` over tokens whose parentheses match ends in
  -- the contexts and at the depth where it began: only the innermost keyword stack has changed.
  pub next_tokens-Nested :
      {tokens : List String} (rest k m : List String) (ks : List (List String)) (d : ℤ)
      (ds : List ℤ) (z : ℤ)
      → Balanced tokens
      → d <ℤ z
      → Nested is_blank tokens rest k (m ∷ ks) (d ∷ ds) z
  next_tokens-Nested rest k m ks d ds z b h = Balanced-Nests b rest k m ks d ds z h

  -- At the depth where the innermost context was opened, as in a main scope of an outermost query,
  -- a parenthesis that opens no context closes one: with its partner, the scope's keyword stack
  -- and the depth of its context are gone.
  pub next_tokens-closes :
      (inner k m : List String) (ks : List (List String)) (ds : List ℤ) (z : ℤ)
      → Balanced inner
      → opening (top k) (next_meaningful is_blank (inner ++ ")" ∷ [])) ≡ nothing
      → next_tokens is_blank ("(" ∷ (inner ++ ")" ∷ [])) [] (state (k ∷ m ∷ ks) (z ∷ ds) z)
        ≡ some (state (m ∷ ks) ds z)
  unfolding next_tokens
  next_tokens-closes inner k m ks ds z b o =
      let (k', e) = Balanced-Nests b (")" ∷ []) k m ks z ds (inc z) (lt-inc z) in
      rw
        (
          append-nil (inner ++ ")" ∷ []),
          next_open (inner ++ ")" ∷ []) k (m ∷ ks) (z ∷ ds) z,
          o,
          next_tokens-append is_blank inner (")" ∷ []) [] (state (k ∷ m ∷ ks) (z ∷ ds) (inc z)),
          e,
        )
        (unfold next_token in rw (close_popped k' m ks ds z) refl)
