-- ===== src/Base/Digits.antt =====
-- The decimal text of a number, `${n}`, and its reading.
use Prim.Native.Nat.{ℕ, zero, suc, ◌+◌, ◌-◌, ◌*◌, ◌/◌, ◌%◌, ◌<◌}
use Prim.Native.Char.{Char, code}
use Prim.Native.String.{String, [], ◌∷◌, ◌++◌}
use mathlib.Core.Path.{◌≡◌, refl}
use mathlib.Core.Logic.{inl, inr}
use native.Mathlib.Omega.{arith}
use text.Mathlib.TextLemmas.{nil-append, cons-append}
use vexnor.Base.Tests.{if◌then◌else◌, ltb, ltb→lt, Bool-cases}

abbrev digit : ℕ → Char
digit zero = "0"
digit (suc zero) = "1"
digit (suc (suc zero)) = "2"
digit (suc (suc (suc zero))) = "3"
digit (suc (suc (suc (suc zero)))) = "4"
digit (suc (suc (suc (suc (suc zero))))) = "5"
digit (suc (suc (suc (suc (suc (suc zero)))))) = "6"
digit (suc (suc (suc (suc (suc (suc (suc zero))))))) = "7"
digit (suc (suc (suc (suc (suc (suc (suc (suc zero)))))))) = "8"
digit (suc (suc (suc (suc (suc (suc (suc (suc (suc n))))))))) = "9"

-- On fuel above the number.
unfoldable pub digits : ℕ → ℕ → String
digits zero n = []
digits (suc fuel) n =
    let rest = digits fuel (n / 10) in
    if ltb n 10 then digit n ∷ [] else rest ++ (digit (n % 10) ∷ [])

unfoldable pub decimal : ℕ → String
unfolding digits
decimal n = digits (suc n) n

read_from : ℕ → String → ℕ
read_from acc [] = acc
read_from acc (c ∷ s) = read_from (acc * 10 + (code c - 48)) s

unfoldable pub read_decimal : String → ℕ
unfolding read_from
read_decimal s = read_from 0 s

code-digit : (k : ℕ) → k < 10 → code (digit k) - 48 ≡ k
code-digit zero h = refl
code-digit (suc zero) h = refl
code-digit (suc (suc zero)) h = refl
code-digit (suc (suc (suc zero))) h = refl
code-digit (suc (suc (suc (suc zero)))) h = refl
code-digit (suc (suc (suc (suc (suc zero))))) h = refl
code-digit (suc (suc (suc (suc (suc (suc zero)))))) h = refl
code-digit (suc (suc (suc (suc (suc (suc (suc zero))))))) h = refl
code-digit (suc (suc (suc (suc (suc (suc (suc (suc zero)))))))) h = refl
code-digit (suc (suc (suc (suc (suc (suc (suc (suc (suc n))))))))) h = omega arith

read_from-snoc :
    (acc : ℕ) (s : String) (c : Char)
    → read_from acc (s ++ (c ∷ [])) ≡ read_from acc s * 10 + (code c - 48)
unfolding read_from
read_from-snoc acc [] c = rw nil-append refl
read_from-snoc acc (d ∷ s) c = rw cons-append (read_from-snoc (acc * 10 + (code d - 48)) s c)

read_from-digits : (fuel n : ℕ) → n < fuel → read_from 0 (digits fuel n) ≡ n
unfolding digits
read_from-digits zero n h = omega arith
read_from-digits (suc fuel) n h = elim (Bool-cases (ltb n 10)) [
  | inl e ↦ rw e (unfold read_from in omega (arith, code-digit n (ltb→lt n 10 e)))
  | inr e ↦
      rw
        (
          e,
          read_from-snoc 0 (digits fuel (n / 10)) (digit (n % 10)),
          read_from-digits fuel (n / 10) (ground (arith, e)),
          code-digit (n % 10) (omega arith),
        )
        (omega arith)
]

pub read_decimal-decimal : (n : ℕ) → read_decimal (decimal n) ≡ n
unfolding read_decimal decimal
read_decimal-decimal n = read_from-digits (suc n) n (omega arith)
