-- ===== src/Pipeline/Attempts.antt =====
-- How often `runWithRetry` calls its function.
use vexnor.Base.{
  ℕ, zero, suc, ◌+◌, ◌-◌, ◌≤◌, ◌≡◌, refl, Bool, true, false, Option, none, some, arith,
  if◌then◌else◌,
}
use vexnor.Errors.{
  Thrown, Outcome, returned, threw, Action, ◌>>=◌, ◌>>◌, raise, catch, continue, recover, or_else,
}
use vexnor.Pipeline.{RetryOptions}
use vexnor.Pipeline.Retry.{
  should_retry, retry_after, attempts, run_with_retry, is_retryable, at_least_one,
}
use vexnor.Errors.Keeps.{Keeps, Keeps-call_or, Keeps-pure}
use vexnor.Pipeline.Phases.{CalmRetry, CalmPolicy, policy, Keeps-pause}

abbrev pub allowed : {E S : Type 0} → Option (RetryOptions E S) → ℕ
allowed none = 1
allowed (some o) = at_least_one (or_else o.max_attempts 1)

-- `m` leads from `I` to `O`, whether it returns or throws.
record Leads {S A : Type 0} (I O : S → Type 0) (m : Action S A) : Type 0 where
  at : (s : S) → I s → O (m s).1

module _ {S A B : Type 0} {I O : S → Type 0} where
  Leads-continue :
      (f : A → Action S B) (o : Outcome A)
      → ((a : A) → Leads I O (f a))
      → ((s : S) → I s → O s)
      → (s : S) → I s
      → O (continue f o s).1
  Leads-continue f (returned a) lf weaker s h = (lf a).at s h
  Leads-continue f (threw e) lf weaker s h = weaker s h

  Leads-bind :
      (m : Action S A) (f : A → Action S B)
      → Keeps I m
      → ((a : A) → Leads I O (f a))
      → ((s : S) → I s → O s)
      → Leads I O (m >>= f)
  unfolding ◌>>=◌
  Leads-bind m f km lf weaker = record {
    at = λ s h. Leads-continue f (m s).0 lf weaker (m s).1 (km.at s h);
  }

  Leads-then :
      (m : Action S A) (k : Action S B)
      → Keeps I m
      → Leads I O k
      → ((s : S) → I s → O s)
      → Leads I O (m >> k)
  unfolding ◌>>◌
  Leads-then m k km lk weaker = record {
    at = λ s h. Leads-continue (λ _. k) (m s).0 (λ _. lk) weaker (m s).1 (km.at s h);
  }

Leads-if :
    {S A : Type 0} {I O : S → Type 0} (b : Bool) (m n : Action S A)
    → Leads I O m
    → Leads I O n
    → Leads I O (if b then m else n)
Leads-if true m n lm ln = lm
Leads-if false m n lm ln = ln

module _ {S A : Type 0} {J O : S → Type 0} where
  Leads-recover :
      (handler : Thrown → Action S A) (o : Outcome A)
      → ((e : Thrown) → Leads J O (handler e))
      → ((s : S) → J s → O s)
      → (s : S) → J s
      → O (recover handler o s).1
  Leads-recover handler (returned a) lh weaker s h = weaker s h
  Leads-recover handler (threw e) lh weaker s h = (lh e).at s h

  Leads-catch :
      {I : S → Type 0} (m : Action S A) (handler : Thrown → Action S A)
      → Leads I J m
      → ((e : Thrown) → Leads J O (handler e))
      → ((s : S) → J s → O s)
      → Leads I O (catch m handler)
  unfolding catch
  Leads-catch m handler lm lh weaker = record {
    at = λ s h. Leads-recover handler (m s).0 lh weaker (m s).1 (lm.at s h);
  }

module _ {S : Type 0} (calls : S → ℕ) where
  abbrev pub At : ℕ → S → Type 0
  At k s = calls s ≡ k

  abbrev Between : ℕ → ℕ → S → Type 0
  Between a b s = (a ≤ calls s) × (calls s ≤ b)

  module _ {E A : Type 0} (sleep : ℕ → Action S Unit) (slept : (k n : ℕ) → Keeps (At k) (sleep n))
      (o : RetryOptions E S) (calm : (k : ℕ) → CalmRetry (At k) o) where
    retry_after-calls :
        (k left max_attempts attempt : ℕ) (execution : E) (next : Action S A) (e : Thrown)
        → Leads (At k) (Between (k + 1) (k + 1 + left)) next
        → Leads
            (At k)
            (Between k (k + 1 + left))
            (retry_after sleep o max_attempts attempt execution next e)
    unfolding retry_after should_retry
    retry_after-calls k left max_attempts attempt execution next e ln =
        Leads-bind _ _
          (Keeps-call_or o.should_retry _ _ (calm k).asks (Keeps-pure (is_retryable e)))
          (λ again.
            Leads-if again _ _
              (Leads-then _ _ (Keeps-pause sleep (slept k) o (calm k) _)
                (record { at = λ t g. ground (arith, ln.at t g) })
                (λ t g. (omega arith, omega arith)))
              (record { at = λ t g. unfold raise in (omega arith, omega arith) }))
          (λ t g. (omega arith, omega arith))

    attempts-calls :
        (k left attempt : ℕ) (execution : E) (fn : ℕ → Action S A)
        → ((j n : ℕ) → Leads (At j) (At (j + 1)) (fn n))
        → Leads (At k) (Between (k + 1) (k + 1 + left)) (attempts sleep o execution fn left attempt)
    unfolding attempts
    attempts-calls k zero attempt execution fn counts = record {
      at = λ s h. omega (arith, (counts k attempt).at s h);
    }
    attempts-calls k (suc left) attempt execution fn counts = weaken (
        Leads-catch (fn attempt) _ (counts k attempt)
          (λ e.
            retry_after-calls (k + 1) left (attempt + suc left) attempt execution _ e
              (attempts-calls (k + 1) left (attempt + 1) execution fn counts))
          (λ t g. (omega arith, omega arith)))
      where
        weaken :
            {m : Action S A}
            → Leads (At k) (Between (k + 1) (k + 1 + 1 + left)) m
            → Leads (At k) (Between (k + 1) (k + 1 + suc left)) m
        weaken l = record { at = λ s h. (omega (arith, (l.at s h).0), omega (arith, (l.at s h).1)) }

at_least_one_pos : (n : ℕ) → 1 ≤ at_least_one n
at_least_one_pos n = ground arith

-- Where each call of the function raises a count by one, and the waits and the callbacks of the
-- policy leave it alone, the function is called at least once, and at most as often as the policy
-- allows: once without a policy.
pub run_with_retry-calls :
    {S E A : Type 0} (calls : S → ℕ) (sleep : ℕ → Action S Unit) (retry : Option (RetryOptions E S))
    (execution : E) (fn : ℕ → Action S A) (s : S)
    → ((k n : ℕ) → Keeps (At calls k) (sleep n))
    → ((k : ℕ) → CalmPolicy (At calls k) retry)
    → ((n : ℕ) (t : S) → calls (fn n t).1 ≡ calls t + 1)
    → (calls s + 1 ≤ calls (run_with_retry sleep retry execution fn s).1)
      × (calls (run_with_retry sleep retry execution fn s).1 ≤ calls s + allowed retry)
unfolding run_with_retry
run_with_retry-calls calls sleep none execution fn s slept calm counts =
    (omega (arith, counts 1 s), omega (arith, counts 1 s))
run_with_retry-calls calls sleep (some o) execution fn s slept calm counts =
    bounds (or_else o.max_attempts 1)
  where
    calm_retry : (k : ℕ) → CalmRetry (At calls k) o
    calm_retry k = elim (calm k) [ policy c ↦ c ]

    bounds :
        (n : ℕ)
        → (calls s + 1 ≤ calls (attempts sleep o execution fn (at_least_one n - 1) 1 s).1)
          × (calls (attempts sleep o execution fn (at_least_one n - 1) 1 s).1
              ≤ calls s + at_least_one n)
    bounds n =
        let b =
          attempts-calls calls sleep slept o calm_retry (calls s) (at_least_one n - 1) 1 execution
            fn (λ j m. record { at = λ t h. omega (arith, counts m t) }) in
        (omega (arith, (b.at s refl).0), omega (arith, (b.at s refl).1, at_least_one_pos n))
