-- ===== src/RateLimiter/Sound.antt =====
-- The context maps stay sound under every event.
use mathlib.Core.Option
use vexnor.Base.{
  ℕ, ◌≡◌, refl, subst, sym, ◌∙◌, String, Bool, Option, none, some, List, [], ◌∷◌, ◌==◌, Bool-cases,
  inl, inr,
}
use vexnor.Base.Dict.{
  Dict, lookup, insert, delete, Distinct, Distinct-insert, Distinct-delete, lookup-insert,
}
use vexnor.Errors.{or_else}
use vexnor.RateLimiter.{
  Duration, QueryMetrics, ContextMetrics, LimiterOptions, Limiter, init, end, check, sweep,
  sweep_inner, map_inner, init_context, end_context, end_with, end_inner, default_ttl, new_limiter,
  clear_context_metrics,
}
use vexnor.RateLimiter.Metrics.{Event, starts, checks, ends, clears, step, run}
use vexnor.RateLimiter.Sweep.{IsSound, Distinct-sweep, lookup-map_inner}

map-IsSound :
    {V : Type 0} (f : Dict V → Dict V) (found : Option (Dict V))
    → ((i : Dict V) → found ≡ some i → Distinct i)
    → ((i : Dict V) → Distinct i → Distinct (f i))
    → (j : Dict V) → Option.map f found ≡ some j
    → Distinct j
map-IsSound f none h k j e = cc
map-IsSound f (some i) h k j e = subst Distinct (Option.some-injective (f i) j e) (k i (h i refl))

module _ {D : Type 0} where
  Distinct-inner_of :
      (found : Option (Dict (ContextMetrics D)))
      → ((i : Dict (ContextMetrics D)) → found ≡ some i → Distinct i)
      → Distinct (or_else found [])
  Distinct-inner_of none h = tt
  Distinct-inner_of (some i) h = h i refl

  replaced-IsSound :
      (key : String) (inner : Dict (ContextMetrics D)) (l : Limiter D)
      → Distinct inner
      → IsSound l
      → IsSound (record l { context_metrics = insert key inner l.context_metrics })
  replaced-IsSound key inner l h sound k i e = elim (Bool-cases (key == k)) [
    | inl b ↦
        subst Distinct
          (Option.some-injective inner i (rw (lookup-insert key k inner l.context_metrics, b) at e))
          h
    | inr b ↦ sound k i (rw (lookup-insert key k inner l.context_metrics, b) at e)
  ]

  mapped-IsSound :
      (f : Dict (ContextMetrics D) → Dict (ContextMetrics D)) (l : Limiter D)
      → ((i : Dict (ContextMetrics D)) → Distinct i → Distinct (f i))
      → IsSound l
      → IsSound (record l { context_metrics = map_inner f l.context_metrics })
  mapped-IsSound f l keep sound k i e =
      map-IsSound f (lookup k l.context_metrics) (sound k) keep i
        (sym (lookup-map_inner f k l.context_metrics) ∙ e)

  init_context-IsSound :
      (d : Duration D) (now : ℕ) (key : String) (ck : Option String) (l : Limiter D)
      → IsSound l
      → IsSound (init_context d now key ck l)
  unfolding init_context
  init_context-IsSound d now key none l sound = sound
  init_context-IsSound d now key (some ck) l sound =
      replaced-IsSound key _ l
        (Distinct-insert ck _ _ (Distinct-inner_of (lookup key l.context_metrics) (sound key)))
        sound

  end_inner-Distinct :
      (d : Duration D) (now : ℕ) (failed : Bool) (t : D) (ck : String)
      (inner : Dict (ContextMetrics D)) (m : Option (ContextMetrics D))
      → Distinct inner
      → Distinct (end_inner d now failed t ck inner m)
  unfolding end_inner
  end_inner-Distinct d now failed t ck inner none h = h
  end_inner-Distinct d now failed t ck inner (some m) h = Distinct-insert ck _ inner h

  end_context-IsSound :
      (d : Duration D) (now : ℕ) (failed : Bool) (t : D) (key : String) (ck : Option String)
      (inner : Option (Dict (ContextMetrics D))) (l : Limiter D)
      → ((i : Dict (ContextMetrics D)) → inner ≡ some i → Distinct i)
      → IsSound l
      → IsSound (end_context d now failed t key ck inner l)
  unfolding end_context
  end_context-IsSound d now failed t key none inner l h sound = sound
  end_context-IsSound d now failed t key (some ck) none l h sound = sound
  end_context-IsSound d now failed t key (some ck) (some i) l h sound =
      replaced-IsSound key _ l (end_inner-Distinct d now failed t ck i (lookup ck i) (h i refl))
        sound

  end_with-IsSound :
      (d : Duration D) (now : ℕ) (key : String) (ck : Option String) (failed : Bool) (t : D)
      (m : Option (QueryMetrics D)) (l : Limiter D)
      → IsSound l
      → IsSound (end_with d now key ck failed t m l)
  unfolding end_with
  end_with-IsSound d now key ck failed t none l sound = sound
  end_with-IsSound d now key ck failed t (some m) l sound =
      end_context-IsSound d now failed t key ck (lookup key l.context_metrics) _ (sound key) sound

module _ {P C D : Type 0} (d : Duration D) (o : LimiterOptions P C D) where
  step-IsSound : (e : Event P C D) (l : Limiter D) → IsSound l → IsSound (step d o e l)
  unfolding init end check sweep clear_context_metrics
  step-IsSound (starts now args) l sound = init_context-IsSound d now _ _ _ sound
  step-IsSound (checks now args) l sound =
      mapped-IsSound (sweep_inner (or_else o.context_metrics_ttl_ms default_ttl) now) l
        (Distinct-sweep _ now) sound
  step-IsSound (ends now args failed t) l sound = end_with-IsSound d now _ _ failed t _ l sound
  step-IsSound (clears none) l sound = λ k i e. unfold lookup in cc
  step-IsSound (clears (some key)) l sound =
      mapped-IsSound (delete key) l (Distinct-delete key) sound

  run-IsSound : (es : List (Event P C D)) (l : Limiter D) → IsSound l → IsSound (run d o es l)
  unfolding run
  run-IsSound [] l sound = sound
  run-IsSound (e ∷ es) l sound = run-IsSound es (step d o e l) (step-IsSound e l sound)

  pub run-new_limiter-IsSound : (es : List (Event P C D)) → IsSound (run d o es new_limiter)
  run-new_limiter-IsSound es = run-IsSound es new_limiter (λ k i e. unfold new_limiter lookup in cc)
