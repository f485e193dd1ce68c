-- ===== src/CtValue/Tests.antt =====
-- src/ast/CtValue.cpp: the compile-time operations on small operands.
use my_llvm_c.Prelude.{◌≡◌, refl, ◌+◌, ◌-◌, ◌*◌, ◌^◌, true, false, inl, inr, some, arith}
use my_llvm_c.CtValue.Word.{
  word, mask_for, masked, flip_sign, sign_extend, clamp_bits, ct_normalize_int, magnitude,
  is_negative, signed_pattern, signed_div,
}
use my_llvm_c.Operators.{op_add, op_sub, op_mul, op_div, op_lt}
use my_llvm_c.CtValue.Binary.{
  int_binary_in, arithmetic, is_division_overflow, normalized, as_bool, is_comparison_op,
}
use my_llvm_c.CtValue.Wrap.{is_extended, Wraps}
use my_llvm_c.CtValue.Arithmetic.{ct_normalize_int-Wraps, Gives, int_binary_in-Gives}
use my_llvm_c.CtValue.Compare.{rank, compares, int_binary_in-compares}

ct_normalize_int-Wraps_example : Wraps 200 8 false (ct_normalize_int 200 8 false false).int_val
ct_normalize_int-Wraps_example =
    ct_normalize_int-Wraps 200 8 false false (omega arith) (inr (inl refl))

normalize_test : (ct_normalize_int 200 8 false false).int_val ≡ word - 56
unfolding ct_normalize_int sign_extend masked mask_for flip_sign clamp_bits
normalize_test = refl

int_binary_in-Gives_example :
    Gives op_add 32 false 2147483647 1 (2147483647 + 1)
    × Gives op_sub 32 false 2147483647 1 (2147483647 + (word - 1))
    × Gives op_mul 32 false 2147483647 1 (2147483647 * 1)
int_binary_in-Gives_example =
    int_binary_in-Gives 32 false 2147483647 1 (inr (inr (inr (inl refl)))) (omega arith)

minus_one-extended : is_extended 8 false (word - 1) ≡ true
unfolding is_extended
minus_one-extended = refl

one-extended : is_extended 8 false 1 ≡ true
unfolding is_extended
one-extended = refl

lt-comparison : is_comparison_op op_lt ≡ true
unfolding is_comparison_op
lt-comparison = refl

int_binary_in-compares_example :
    int_binary_in op_lt (8, false) (word - 1) 1
    ≡ as_bool (compares op_lt (rank false (word - 1)) (rank false 1))
int_binary_in-compares_example =
    int_binary_in-compares 8 false (word - 1) 1 op_lt (inr (inl refl)) minus_one-extended
      one-extended (omega arith) (omega arith) lt-comparison

-- The smallest 32-bit integer divided by -1 wraps to itself.
division_test :
    int_binary_in op_div (32, false) (2 ^ 31) (2 ^ 32 - 1)
    ≡ some (ct_normalize_int (word - 2 ^ 31) 32 false false)
unfolding int_binary_in is_comparison_op arithmetic is_division_overflow normalized ct_normalize_int
    sign_extend masked mask_for flip_sign clamp_bits magnitude is_negative signed_pattern signed_div
division_test = refl
