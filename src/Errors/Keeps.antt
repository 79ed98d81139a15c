-- ===== src/Errors/Keeps.antt =====
-- Invariants of actions: one rule for each way to build an action.
use vexnor.Base.{Bool, true, false, Option, none, some, if◌then◌else◌}
use vexnor.Errors.{
  Thrown, Outcome, returned, threw, Action, ◌>>=◌, ◌>>◌, pure, raise, catch, continue, recover,
  call_or,
}

-- `m` keeps `I`, whether it returns or throws.
pub record Keeps {S A : Type 0} (I : S → Type 0) (m : Action S A) : Type 0 where
  pub at : (s : S) → I s → I (m s).1

module _ {S : Type 0} {I : S → Type 0} where
  pub Keeps-pure : {A : Type 0} (a : A) → Keeps I (pure a)
  unfolding pure
  Keeps-pure a = record { at = λ s h. h }

  pub Keeps-raise : {A : Type 0} (e : Thrown) → Keeps {A = A} I (raise e)
  unfolding raise
  Keeps-raise e = record { at = λ s h. h }

  Keeps-continue :
      {A B : Type 0} (f : A → Action S B) (o : Outcome A)
      → ((a : A) → Keeps I (f a))
      → (s : S) → I s
      → I (continue f o s).1
  Keeps-continue f (returned a) kf s h = (kf a).at s h
  Keeps-continue f (threw e) kf s h = h

  Keeps-recover :
      {A : Type 0} (handler : Thrown → Action S A) (o : Outcome A)
      → ((e : Thrown) → Keeps I (handler e))
      → (s : S) → I s
      → I (recover handler o s).1
  Keeps-recover handler (returned a) kh s h = h
  Keeps-recover handler (threw e) kh s h = (kh e).at s h

  pub Keeps-bind :
      {A B : Type 0} (m : Action S A) (f : A → Action S B)
      → Keeps I m
      → ((a : A) → Keeps I (f a))
      → Keeps I (m >>= f)
  unfolding ◌>>=◌
  Keeps-bind m f km kf = record { at = λ s h. Keeps-continue f (m s).0 kf (m s).1 (km.at s h) }

  pub Keeps-then :
      {A B : Type 0} (m : Action S A) (k : Action S B) → Keeps I m → Keeps I k → Keeps I (m >> k)
  unfolding ◌>>◌
  Keeps-then m k km kk = record {
    at = λ s h. Keeps-continue (λ _. k) (m s).0 (λ _. kk) (m s).1 (km.at s h);
  }

  pub Keeps-catch :
      {A : Type 0} (m : Action S A) (handler : Thrown → Action S A)
      → Keeps I m
      → ((e : Thrown) → Keeps I (handler e))
      → Keeps I (catch m handler)
  unfolding catch
  Keeps-catch m handler km kh = record {
    at = λ s h. Keeps-recover handler (m s).0 kh (m s).1 (km.at s h);
  }

  pub Keeps-if :
      {A : Type 0} (b : Bool) (m n : Action S A)
      → Keeps I m
      → Keeps I n
      → Keeps I (if b then m else n)
  Keeps-if true m n km kn = km
  Keeps-if false m n km kn = kn

-- The callback, where there is one, keeps `I` at every argument.
pub data KeepsCall {S X B : Type 0} (I : S → Type 0) : Option (X → Action S B) → Type 0 where
  absent : KeepsCall I none
  present : {f : X → Action S B} → ((x : X) → Keeps I (f x)) → KeepsCall I (some f)

pub Keeps-call_or :
    {S X B : Type 0} {I : S → Type 0} (o : Option (X → Action S B)) (d : Action S B) (x : X)
    → KeepsCall I o
    → Keeps I d
    → Keeps I (call_or o d x)
unfolding call_or
Keeps-call_or o d x absent kd = record { at = kd.at }
Keeps-call_or o d x (present kf) kd = record { at = (kf x).at }

pub ruleset keeps_rules =
    (Keeps-pure, Keeps-raise, Keeps-bind, Keeps-then, Keeps-catch, Keeps-if, Keeps-call_or)
