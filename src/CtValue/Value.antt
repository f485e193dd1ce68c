-- ===== src/CtValue/Value.antt =====
-- src/ast/CtValue.h and src/ast/CtValue.cpp: `CtValue`, `ctTruthy` and `ctEquals`. The type `D` stands for `double`, with the
-- operations of the C++ language on it; a pointer is an address, `none` for null.
use my_llvm_c.Prelude.{
  ℕ, Bool, true, false, not, ◌&&◌, Bytes, [], ◌∷◌, Option, none, some, ◌==◌, bytes_eq,
}
use my_llvm_c.CtValue.Word.{CtInt, sign_extend}

-- `double`, as far as the evaluator uses it. `of_int64` is the conversion from a signed pattern.
pub record Doubles (D : Type 0) : Type 0 where
  pub zero_value : D
  pub add_double : D → D → D
  pub sub_double : D → D → D
  pub mul_double : D → D → D
  pub div_double : D → D → D
  pub eq_double : D → D → Bool
  pub lt_double : D → D → Bool
  pub le_double : D → D → Bool
  pub of_int64 : ℕ → D

pub data CtValue (D : Type 0) : Type 0 where
  int : CtInt → CtValue D
  double : D → CtValue D
  char : ℕ → CtValue D
  str : Bytes → CtValue D
  type : Option ℕ → CtValue D
  func : Bytes → CtValue D
  container : Option ℕ → CtValue D
  ptr : Option ℕ → ℕ → CtValue D

unfoldable pub is_empty : Bytes → Bool
is_empty [] = true
is_empty (c ∷ s) = false

unfoldable pub is_null : Option ℕ → Bool
is_null none = true
is_null (some p) = false

unfoldable pub same_pointer : Option ℕ → Option ℕ → Bool
same_pointer none none = true
same_pointer none (some q) = false
same_pointer (some p) none = false
same_pointer (some p) (some q) = p == q

-- `static_cast<long long>(v.charVal)`: `char` is signed.
unfoldable pub char_pattern : ℕ → ℕ
char_pattern c = sign_extend c 8

module _ (D : Type 0) (ops : Doubles D) where
  unfoldable pub ct_truthy : CtValue D → Bool
  unfolding is_empty is_null
  ct_truthy (int i) = not (i.int_val == 0)
  ct_truthy (char c) = not (c == 0)
  ct_truthy (double d) = not (ops.eq_double d ops.zero_value)
  ct_truthy (str s) = not (is_empty s)
  ct_truthy (type t) = not (is_null t)
  ct_truthy (func f) = not (is_empty f)
  ct_truthy (container c) = not (is_null c)
  ct_truthy (ptr c i) = not (is_null c)

  unfoldable pub ct_equals : CtValue D → CtValue D → Bool
  unfolding same_pointer char_pattern bytes_eq
  -- Both the signed and the unsigned comparison of two patterns are that of the patterns.
  ct_equals (int a) (int b) = a.int_val == b.int_val
  ct_equals (int a) (char c) = a.int_val == char_pattern c
  ct_equals (char c) (int b) = char_pattern c == b.int_val
  ct_equals (char a) (char b) = a == b
  ct_equals (double a) (double b) = ops.eq_double a b
  ct_equals (str a) (str b) = bytes_eq a b
  ct_equals (type a) (type b) = same_pointer a b
  ct_equals (func a) (func b) = bytes_eq a b
  ct_equals (container a) (container b) = same_pointer a b
  ct_equals (ptr a i) (ptr b j) = same_pointer a b && i == j
  ct_equals _ _ = false
