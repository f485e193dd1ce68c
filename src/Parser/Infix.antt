-- ===== src/Parser/Infix.antt =====
-- src/frontend/Parser.cpp: `tokenTypeToBinaryOp`, `tokenTypeToAssignOp`, and what the loop of `parseExpr` does
-- with a token behind an operand.
use my_llvm_c.Prelude.{ℕ, ◌+◌, Bool, true, false, ◌&&◌, Option, none, some, ltb, if◌then◌else◌}
use my_llvm_c.Token.{
  TokenType, token_comma, token_assign, token_plus_eq, token_minus_eq, token_star_eq,
  token_slash_eq, token_percent_eq, token_amp_eq, token_pipe_eq, token_caret_eq, token_lshift_eq,
  token_rshift_eq, token_question, token_or, token_and, token_bit_or, token_caret, token_bit_and,
  token_eq, token_not_eq, token_lt, token_gt, token_le, token_ge, token_lshift, token_rshift,
  token_plus, token_minus, token_star, token_slash, token_percent, token_colon,
}
use my_llvm_c.Precedence.{get_operator_info}
use my_llvm_c.Operators.{
  BinaryOp, op_invalid, op_add, op_sub, op_mul, op_div, op_mod, op_eq, op_not_eq, op_lt, op_gt,
  op_le, op_ge, op_and, op_or, op_bit_and, op_bit_or, op_bit_xor, op_lshift, op_rshift, AssignOp,
  assign, add_assign, sub_assign, mul_assign, div_assign, mod_assign, bit_and_assign, bit_or_assign,
  bit_xor_assign, lshift_assign, rshift_assign,
}

unfoldable pub to_binary_op : TokenType → BinaryOp
to_binary_op token_plus = op_add
to_binary_op token_minus = op_sub
to_binary_op token_star = op_mul
to_binary_op token_slash = op_div
to_binary_op token_percent = op_mod
to_binary_op token_eq = op_eq
to_binary_op token_not_eq = op_not_eq
to_binary_op token_lt = op_lt
to_binary_op token_gt = op_gt
to_binary_op token_le = op_le
to_binary_op token_ge = op_ge
to_binary_op token_and = op_and
to_binary_op token_or = op_or
to_binary_op token_bit_and = op_bit_and
to_binary_op token_bit_or = op_bit_or
to_binary_op token_caret = op_bit_xor
to_binary_op token_lshift = op_lshift
to_binary_op token_rshift = op_rshift
to_binary_op _ = op_invalid

-- `none` for the tokens that the test before `tokenTypeToAssignOp` turns away.
unfoldable pub to_assign_op : TokenType → Option AssignOp
to_assign_op token_assign = some assign
to_assign_op token_plus_eq = some add_assign
to_assign_op token_minus_eq = some sub_assign
to_assign_op token_star_eq = some mul_assign
to_assign_op token_slash_eq = some div_assign
to_assign_op token_percent_eq = some mod_assign
to_assign_op token_amp_eq = some bit_and_assign
to_assign_op token_pipe_eq = some bit_or_assign
to_assign_op token_caret_eq = some bit_xor_assign
to_assign_op token_lshift_eq = some lshift_assign
to_assign_op token_rshift_eq = some rshift_assign
to_assign_op _ = none

-- `m_templateArgDepth > 0 && (type == TOKEN_GT || type == TOKEN_RSHIFT)`
unfoldable pub closes_template : TokenType → Bool
closes_template token_gt = true
closes_template token_rshift = true
closes_template _ = false

-- What the loop does with the operator: it ends, or it takes the operator and reads its right side from a level on.
pub data Action : Type 0 where
  stop comma question : Action
  assigns : AssignOp → Action
  binds : BinaryOp → Action

unfoldable pub is_comma : TokenType → Bool
is_comma token_comma = true
is_comma _ = false

unfoldable pub is_question : TokenType → Bool
is_question token_question = true
is_question _ = false

unfoldable pub is_colon : TokenType → Bool
is_colon token_colon = true
is_colon _ = false

unfoldable pub is_invalid : BinaryOp → Bool
is_invalid op_invalid = true
is_invalid _ = false

unfoldable pub assign_action : Option AssignOp → Action → Action
assign_action (some op) other = assigns op
assign_action none other = other

unfoldable pub binary_action : ℕ → BinaryOp → Action
binary_action prec op = if ltb 0 prec then (if is_invalid op then stop else binds op) else stop

-- The tests of the loop in their order: `depth` is `m_templateArgDepth`.
unfoldable pub action : ℕ → ℕ → TokenType → Action
action depth min_prec t =
    let prec = (get_operator_info t).precedence in
    if ltb 0 depth && closes_template t
    then stop
    else if ltb prec min_prec
    then stop
    else if is_comma t
    then comma
    else if is_question t
    then question
    else assign_action (to_assign_op t) (binary_action prec (to_binary_op t))

-- The level of the right side of a binary operator.
unfoldable pub right_level : TokenType → ℕ
right_level t =
    let info = get_operator_info t in
    if info.right_associative then info.precedence else info.precedence + 1
