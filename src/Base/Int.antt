-- ===== src/Base/Int.antt =====
-- Signed counters: a number that a program raises and lowers by one, and that may pass zero.
use Prim.Native.Nat.{ℕ, zero, suc, ◌+◌, ◌<◌}
use mathlib.Core.Path.{◌≡◌, refl}
use mathlib.Core.Bool.{Bool, true, false}
use native.Mathlib.Omega.{arith}
use vexnor.Base.Tests.{nat_eq}

-- `negsuc n` is -(n + 1).
pub data ℤ : Type 0 where
  pos : ℕ → ℤ
  negsuc : ℕ → ℤ

abbrev pos_part : ℤ → ℕ
pos_part (pos n) = n
pos_part (negsuc n) = 0

abbrev neg_part : ℤ → ℕ
neg_part (pos n) = 0
neg_part (negsuc n) = suc n

infix 50 ◌<ℤ◌
unfoldable pub ◌<ℤ◌ : ℤ → ℤ → Type 0
a <ℤ b = pos_part a + neg_part b < pos_part b + neg_part a

-- z++
unfoldable pub inc : ℤ → ℤ
inc (pos n) = pos (suc n)
inc (negsuc zero) = pos 0
inc (negsuc (suc n)) = negsuc n

-- z--
unfoldable pub dec : ℤ → ℤ
dec (pos zero) = negsuc 0
dec (pos (suc n)) = pos n
dec (negsuc n) = negsuc (suc n)

-- a === b
unfoldable pub int_eq : ℤ → ℤ → Bool
int_eq (pos m) (pos n) = nat_eq m n
int_eq (pos m) (negsuc n) = false
int_eq (negsuc m) (pos n) = false
int_eq (negsuc m) (negsuc n) = nat_eq m n

pub dec-inc : (z : ℤ) → dec (inc z) ≡ z
unfolding dec inc
dec-inc (pos n) = refl
dec-inc (negsuc zero) = refl
dec-inc (negsuc (suc n)) = refl

pub lt-inc : (z : ℤ) → z <ℤ inc z
unfolding inc ◌<ℤ◌
lt-inc (pos n) = omega arith
lt-inc (negsuc zero) = omega arith
lt-inc (negsuc (suc n)) = omega arith

pub lt-inc_of_lt : (a z : ℤ) → a <ℤ z → a <ℤ inc z
unfolding inc ◌<ℤ◌
lt-inc_of_lt a (pos n) h = omega arith
lt-inc_of_lt a (negsuc zero) h = omega arith
lt-inc_of_lt a (negsuc (suc n)) h = omega arith

pub int_eq_refl : (z : ℤ) → int_eq z z ≡ true
unfolding int_eq
int_eq_refl (pos n) = ground arith
int_eq_refl (negsuc n) = ground arith

pub int_eq_of_lt : (a z : ℤ) → a <ℤ z → int_eq z a ≡ false
unfolding int_eq ◌<ℤ◌
int_eq_of_lt (pos m) (pos n) h = ground arith
int_eq_of_lt (pos m) (negsuc n) h = refl
int_eq_of_lt (negsuc m) (pos n) h = refl
int_eq_of_lt (negsuc m) (negsuc n) h = ground arith
