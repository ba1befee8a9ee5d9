-- ===== src/Prelude/Int.antt =====
-- C's signed numbers over the native ℕ. An `int` that a system call returns and a `long` are taken
-- as mathematical integers.
use Prim.Native.Nat.{ℕ, suc, ◌/◌, ◌%◌}
use native.Mathlib.Omega.{arith}
use mathlib.Core.Path.{◌≡◌}
use mathlib.Core.Bool.{Bool, true, false}
use marko_cpp.Prelude.Tests.{◌==◌}

-- `negsuc n` is -(n + 1).
pub data ℤ : Type 0 where
  pos : ℕ → ℤ
  negsuc : ℕ → ℤ

-- `x < 0`
abbrev pub is_neg : ℤ → Bool
is_neg (pos n) = false
is_neg (negsuc n) = true

-- `==` of two signed numbers
abbrev pub eq_int : ℤ → ℤ → Bool
eq_int (pos m) (pos n) = m == n
eq_int (negsuc m) (negsuc n) = m == n
eq_int _ _ = false

-- the negation of a natural number
abbrev pub neg : ℕ → ℤ
neg ℕ.zero = pos 0
neg (suc n) = negsuc n

-- C's `/` and `%` by a positive constant, which round towards zero.
abbrev pub div_trunc : ℤ → ℕ → ℤ
div_trunc (pos n) d = pos (n / d)
div_trunc (negsuc n) d = neg (suc n / d)

abbrev pub mod_trunc : ℤ → ℕ → ℤ
mod_trunc (pos n) d = pos (n % d)
mod_trunc (negsuc n) d = neg (suc n % d)

pub eq_int_sound : (a b : ℤ) → eq_int a b ≡ true → a ≡ b
eq_int_sound (pos m) (pos n) h = ground arith
eq_int_sound (pos m) (negsuc n) h = cc
eq_int_sound (negsuc m) (pos n) h = cc
eq_int_sound (negsuc m) (negsuc n) h = ground arith
