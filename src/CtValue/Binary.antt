-- ===== src/CtValue/Binary.antt =====
-- src/ast/CtValue.cpp: `ctBinary`.
use Prim.Native.Nat.{bit_and, bit_or, bit_xor}
use my_llvm_c.Prelude.{
  ℕ, ◌+◌, ◌-◌, ◌*◌, ◌/◌, ◌%◌, ◌^◌, max, Bool, true, false, not, ◌&&◌, ◌||◌, Option, none, some, ltb,
  leb, ◌==◌, if◌then◌else◌, bytes_eq,
}
use my_llvm_c.Operators.{
  BinaryOp, op_add, op_sub, op_mul, op_div, op_mod, op_eq, op_not_eq, op_lt, op_gt, op_le, op_ge,
  op_and, op_or, op_bit_and, op_bit_or, op_bit_xor, op_lshift, op_rshift,
}
use my_llvm_c.CtValue.Word.{
  word, masked, sign_extend, CtInt, ct_normalize_int, ct_int, signed_lt, signed_div, signed_mod,
  signed_shift_right,
}
use my_llvm_c.CtValue.IntType.{IntInfo, CtType, ct_int_info}
use my_llvm_c.CtValue.Value.{
  Doubles, CtValue, int, double, char, str, type, func, char_pattern, ct_truthy, ct_equals,
}

unfoldable pub is_logical_op : BinaryOp → Bool
is_logical_op op_and = true
is_logical_op op_or = true
is_logical_op _ = false

unfoldable pub is_comparison_op : BinaryOp → Bool
is_comparison_op op_eq = true
is_comparison_op op_not_eq = true
is_comparison_op op_lt = true
is_comparison_op op_gt = true
is_comparison_op op_le = true
is_comparison_op op_ge = true
is_comparison_op op_and = true
is_comparison_op op_or = true
is_comparison_op _ = false

-- `makeIntBits(value ? 1 : 0, 1, true, true)`
unfoldable pub bool_result : Bool → CtInt
bool_result b = ct_normalize_int (if b then 1 else 0) 1 true true

-- The width and the signedness of the operation: of the result's type if it is an integer type of at most 64 bits.
unfoldable pub inferred_width : Bool → ℕ → Bool → ℕ × Bool
inferred_width comparison bits is_unsigned =
    if not comparison && ltb bits 32 then (32, false) else (bits, is_unsigned)

unfoldable pub typed_width : Option IntInfo → ℕ → Bool → ℕ × Bool
typed_width none bits is_unsigned = (bits, is_unsigned)
typed_width (some i) bits is_unsigned =
    if leb i.bits 64 then (i.bits, i.is_unsigned) else (bits, is_unsigned)

unfoldable pub op_width : Bool → CtType → CtInt → CtInt → ℕ × Bool
unfolding inferred_width typed_width
op_width comparison result_type l r =
    let bits = max l.bits r.bits in
    let is_unsigned = l.is_unsigned || r.is_unsigned in
    elim result_type [
      | CtType.null ↦ inferred_width comparison bits is_unsigned
      | t ↦
          if comparison
          then inferred_width comparison bits is_unsigned
          else typed_width (ct_int_info t) bits is_unsigned
    ]

unfoldable pub below : ℕ → Bool → ℕ → ℕ → Bool
below bits is_unsigned x y =
    if is_unsigned then ltb x y else signed_lt (sign_extend x bits) (sign_extend y bits)

-- A comparison of the masked operands `ar` and `br`, sign-extended if the operation is signed.
unfoldable pub compare_ints : BinaryOp → ℕ → Bool → ℕ → ℕ → Option Bool
compare_ints op bits is_unsigned ar br =
    let same = if is_unsigned then ar == br else sign_extend ar bits == sign_extend br bits in
    elim op [
      | op_eq ↦ some same
      | op_not_eq ↦ some (not same)
      | op_lt ↦ some (below bits is_unsigned ar br)
      | op_gt ↦ some (below bits is_unsigned br ar)
      | op_le ↦ some (not (below bits is_unsigned br ar))
      | op_ge ↦ some (not (below bits is_unsigned ar br))
      | _ ↦ none
    ]

-- `!opUnsigned && opBits == 64 && as == INT64_MIN && bs == -1`
unfoldable pub is_division_overflow : ℕ → Bool → ℕ → ℕ → Bool
is_division_overflow bits is_unsigned a b =
    not is_unsigned && bits == 64 && a == 2 ^ 63 && b == word - 1

-- The 64-bit result of an arithmetic operation on the masked operands; `none` for a division by zero.
unfoldable pub arithmetic : BinaryOp → ℕ → Bool → ℕ → ℕ → Option ℕ
arithmetic op bits is_unsigned ar br =
    let a = sign_extend ar bits in
    let b = sign_extend br bits in
    let shift = bit_and br (bits - 1) in
    elim op [
      | op_add ↦ some ((ar + br) % word)
      | op_sub ↦ some ((ar + (word - br)) % word)
      | op_mul ↦ some ((ar * br) % word)
      | op_div ↦
          if br == 0
          then none
          else if is_division_overflow bits is_unsigned a b
          then some (2 ^ 63)
          else some (if is_unsigned then ar / br else signed_div a b)
      | op_mod ↦
          if br == 0
          then none
          else if is_division_overflow bits is_unsigned a b
          then some 0
          else some (if is_unsigned then ar % br else signed_mod a b)
      | op_bit_and ↦ some (bit_and ar br)
      | op_bit_or ↦ some (bit_or ar br)
      | op_bit_xor ↦ some (bit_xor ar br)
      | op_lshift ↦ some ((ar * 2 ^ shift) % word)
      | op_rshift ↦ some (if is_unsigned then ar / 2 ^ shift else signed_shift_right a shift)
      | _ ↦ none
    ]

-- `intOperand`: a `char` is an 8-bit signed integer.
unfoldable pub int_operand : CtInt → CtInt
int_operand v = record v { bits = if v.bits == 0 then 64 else v.bits }

unfoldable pub char_operand : ℕ → CtInt
char_operand c = ct_int c 8 false false

unfoldable pub normalized : ℕ → Bool → Option ℕ → Option CtInt
normalized bits is_unsigned none = none
normalized bits is_unsigned (some v) = some (ct_normalize_int v bits is_unsigned false)

unfoldable pub as_bool : Option Bool → Option CtInt
as_bool none = none
as_bool (some b) = some (bool_result b)

-- `ctBinary` on two integers that are not joined by a logical operator, in the width and signedness of the operation.
unfoldable pub int_binary_in : BinaryOp → ℕ × Bool → ℕ → ℕ → Option CtInt
int_binary_in op (bits, is_unsigned) l r =
    if ltb 64 bits
    then none
    else if is_comparison_op op
    then as_bool (compare_ints op bits is_unsigned (masked l bits) (masked r bits))
    else normalized bits is_unsigned
        (arithmetic op bits is_unsigned (masked l bits) (masked r bits))

unfoldable pub int_binary : BinaryOp → CtType → CtInt → CtInt → Option CtInt
int_binary op result_type l r =
    int_binary_in op (op_width (is_comparison_op op) result_type l r) l.int_val r.int_val

-- `eq == (op == BinaryOp::Eq)` for two values that can only be compared for equality.
unfoldable pub equality : BinaryOp → Bool → Option CtInt
equality op same = elim op [
  | op_eq ↦ some (bool_result same)
  | op_not_eq ↦ some (bool_result (not same))
  | _ ↦ none
]

module _ (D : Type 0) (ops : Doubles D) where
  unfoldable pub int_value : Option CtInt → Option (CtValue D)
  int_value none = none
  int_value (some i) = some (int i)

  -- The operations on two numbers of which one is a `double`.
  unfoldable pub double_binary : BinaryOp → D → D → Option (CtValue D)
  double_binary op a b = elim op [
    | op_add ↦ some (double (ops.add_double a b))
    | op_sub ↦ some (double (ops.sub_double a b))
    | op_mul ↦ some (double (ops.mul_double a b))
    | op_div ↦ if ops.eq_double b ops.zero_value then none else some (double (ops.div_double a b))
    | op_eq ↦ some (int (bool_result (ops.eq_double a b)))
    | op_not_eq ↦ some (int (bool_result (not (ops.eq_double a b))))
    | op_lt ↦ some (int (bool_result (ops.lt_double a b)))
    | op_gt ↦ some (int (bool_result (ops.lt_double b a)))
    | op_le ↦ some (int (bool_result (ops.le_double a b)))
    | op_ge ↦ some (int (bool_result (ops.le_double b a)))
    | _ ↦ none
  ]

  unfoldable pub logical : BinaryOp → Bool → Bool → Bool → Option (CtValue D)
  logical op too_wide a b = if too_wide then none else elim op [
    | op_and ↦ some (int (bool_result (a && b)))
    | _ ↦ some (int (bool_result (a || b)))
  ]

  -- Two integers, with the values that they came from for the logical operators.
  unfoldable pub whole_binary :
      BinaryOp → CtType → CtValue D → CtValue D → CtInt → CtInt → Option (CtValue D)
  whole_binary op result_type left right l r =
      if is_logical_op op
      then logical op (ltb 64 (op_width true result_type l r).0) (ct_truthy D ops left)
          (ct_truthy D ops right)
      else int_value (int_binary op result_type l r)

  unfoldable pub ct_binary : CtValue D → CtValue D → BinaryOp → CtType → Option (CtValue D)
  ct_binary (str a) (str b) op t = int_value (equality op (bytes_eq a b))
  ct_binary (func a) (func b) op t = int_value (equality op (ct_equals D ops (func a) (func b)))
  ct_binary (type a) (type b) op t = int_value (equality op (ct_equals D ops (type a) (type b)))
  ct_binary (double a) (double b) op t = double_binary op a b
  ct_binary (double a) (int b) op t = double_binary op a (ops.of_int64 b.int_val)
  ct_binary (double a) (char b) op t = double_binary op a (ops.of_int64 (char_pattern b))
  ct_binary (int a) (double b) op t = double_binary op (ops.of_int64 a.int_val) b
  ct_binary (char a) (double b) op t = double_binary op (ops.of_int64 (char_pattern a)) b
  ct_binary (int a) (int b) op t = whole_binary op t (int a) (int b) (int_operand a) (int_operand b)
  ct_binary (int a) (char b) op t =
      whole_binary op t (int a) (char b) (int_operand a) (char_operand b)
  ct_binary (char a) (int b) op t =
      whole_binary op t (char a) (int b) (char_operand a) (int_operand b)
  ct_binary (char a) (char b) op t =
      whole_binary op t (char a) (char b) (char_operand a) (char_operand b)
  ct_binary _ _ op t = none
