-- ===== src/Base/TextOrder.antt =====
-- The order of texts by their code points.
use Prim.Native.Char.{Char, code}
use Prim.Native.String.{String, [], ◌∷◌}
use mathlib.Core.Path.{◌≡◌, refl, ap, ◌∙◌}
use mathlib.Core.Bool.{Bool, true, false}
use mathlib.Core.Logic.{inl, inr}
use native.Mathlib.Omega.{arith}
use text.Mathlib.Text.{◌==◌}
use text.Mathlib.TextEquality.{eq_iff, codes_equal}
use vexnor.Base.Tests.{if◌then◌else◌, ltb, Bool-cases}

unfoldable pub text_gt : String → String → Bool
text_gt [] t = false
text_gt (c ∷ s) [] = true
text_gt (c ∷ s) (d ∷ t) =
    let rest = text_gt s t in
    if ltb (code d) (code c) then true else if ltb (code c) (code d) then false else rest

pub text_gt_one_way : (s t : String) → text_gt s t ≡ true → text_gt t s ≡ false
unfolding text_gt
text_gt_one_way [] t h = absurd (cc h)
text_gt_one_way (c ∷ s) [] h = refl
text_gt_one_way (c ∷ s) (d ∷ t) h = ground (arith, text_gt_one_way s t)

pub text_gt_transitive :
    (s t u : String) → text_gt s t ≡ true → text_gt t u ≡ true → text_gt s u ≡ true
unfolding text_gt
text_gt_transitive [] t u h k = absurd (cc h)
text_gt_transitive (c ∷ s) [] u h k = absurd (cc k)
text_gt_transitive (c ∷ s) (d ∷ t) [] h k = refl
text_gt_transitive (c ∷ s) (d ∷ t) (f ∷ u) h k = ground (arith, text_gt_transitive s t u)

same_code : (c d : Char) → code c ≡ code d → c ≡ d
same_code c d h = codes_equal c d (ground arith)

neither_gt : (s t : String) → text_gt s t ≡ false → text_gt t s ≡ false → s ≡ t
unfolding text_gt
neither_gt [] [] h k = refl
neither_gt [] (d ∷ t) h k = absurd (cc k)
neither_gt (c ∷ s) [] h k = absurd (cc h)
neither_gt (c ∷ s) (d ∷ t) h k =
    let e = same_code c d (ground arith) in
    ap (λ x. x ∷ s) e ∙ ap (λ x. d ∷ x) (neither_gt s t (ground arith) (ground arith))

pub text_gt_total : (s t : String) → (s == t) ≡ false → text_gt s t ≡ false → text_gt t s ≡ true
text_gt_total s t d h = elim (Bool-cases (text_gt t s)) [
  | inl e ↦ e
  | inr e ↦ absurd (cc (d, (eq_iff s t).1 (neither_gt s t h e)))
]
