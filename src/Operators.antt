-- ===== src/Operators.antt =====
-- src/ast/Expr.h: the operators of binary and assignment expressions.
pub data BinaryOp : Type 0 where
  op_invalid op_add op_sub op_mul op_div op_mod op_eq op_not_eq op_lt op_gt op_le op_ge op_and
        op_or :
      BinaryOp
  op_bit_and op_bit_or op_bit_xor op_lshift op_rshift : BinaryOp

pub data AssignOp : Type 0 where
  assign add_assign sub_assign mul_assign div_assign mod_assign : AssignOp
  bit_and_assign bit_or_assign bit_xor_assign lshift_assign rshift_assign : AssignOp
