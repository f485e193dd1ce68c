-- ===== src/Prelude/Int.antt =====
-- Signed numbers over the native numbers, under the library's names. A C++ `int` or `long long` is read as its value.
use Prim.Native.Nat.{ℕ}
use mathlib.Core.Path.{◌≡◌, refl, ap}
use mathlib.Core.Bool.{Bool, true, false}
use my_llvm_c.Prelude.Tests.{◌==◌, ==_iff}

pub data ℤ : Type 0 where
  pos : ℕ → ℤ
  -- `negsuc n` is `- (n + 1)`.
  negsuc : ℕ → ℤ

unfoldable pub int_eq : ℤ → ℤ → Bool
int_eq (pos a) (pos b) = a == b
int_eq (negsuc a) (negsuc b) = a == b
int_eq _ _ = false

pub int_eq_refl : (i : ℤ) → int_eq i i ≡ true
unfolding int_eq
int_eq_refl (pos a) = (==_iff a a).1 refl
int_eq_refl (negsuc a) = (==_iff a a).1 refl

pub int_eq_eq : (i j : ℤ) → int_eq i j ≡ true → i ≡ j
unfolding int_eq
int_eq_eq (pos a) (pos b) e = ap pos ((==_iff a b).0 e)
int_eq_eq (negsuc a) (negsuc b) e = ap negsuc ((==_iff a b).0 e)
int_eq_eq (pos a) (negsuc b) e = absurd (cc)
int_eq_eq (negsuc a) (pos b) e = absurd (cc)
