-- ===== src/Parser/Levels.antt =====
-- src/frontend/OperatorPrecedence.cpp and src/frontend/Parser.cpp: the levels of the operators in the table.
use my_llvm_c.Prelude.{ℕ, suc, ◌≤◌, ◌≡◌, refl, true, false, some, arith}
use my_llvm_c.Token.{
  TokenType, token_comma, token_assign, token_plus_eq, token_minus_eq, token_star_eq,
  token_slash_eq, token_percent_eq, token_amp_eq, token_pipe_eq, token_caret_eq, token_lshift_eq,
  token_rshift_eq, token_question, token_or, token_and, token_bit_or, token_caret, token_bit_and,
  token_eq, token_not_eq, token_lt, token_gt, token_le, token_ge, token_lshift, token_rshift,
  token_plus, token_minus, token_star, token_slash, token_percent,
}
use my_llvm_c.Precedence.{get_operator_info}
use my_llvm_c.Operators.{AssignOp}
use my_llvm_c.Parser.Infix.{
  to_binary_op, to_assign_op, is_comma, is_question, is_invalid, right_level,
}

abbrev pub level : TokenType → ℕ
level t = (get_operator_info t).precedence

pub comma-level : (t : TokenType) → is_comma t ≡ true → level t ≡ 1
unfolding is_comma get_operator_info
comma-level token_comma h = refl
comma-level _ h = cc

pub question-level : (t : TokenType) → is_question t ≡ true → level t ≡ 3
unfolding is_question get_operator_info
question-level token_question h = refl
question-level _ h = cc

pub assign-level : (t : TokenType) (op : AssignOp) → to_assign_op t ≡ some op → level t ≡ 2
unfolding to_assign_op get_operator_info
assign-level token_assign op h = refl
assign-level token_plus_eq op h = refl
assign-level token_minus_eq op h = refl
assign-level token_star_eq op h = refl
assign-level token_slash_eq op h = refl
assign-level token_percent_eq op h = refl
assign-level token_amp_eq op h = refl
assign-level token_pipe_eq op h = refl
assign-level token_caret_eq op h = refl
assign-level token_lshift_eq op h = refl
assign-level token_rshift_eq op h = refl
assign-level _ op h = cc

-- A binary operator binds more tightly than `?`, and to the left.
pub binary-level :
    (t : TokenType)
    → is_invalid (to_binary_op t) ≡ false
    → (4 ≤ level t) × (right_level t ≡ suc (level t))
unfolding is_invalid to_binary_op get_operator_info right_level
binary-level token_plus h = (omega arith, refl)
binary-level token_minus h = (omega arith, refl)
binary-level token_star h = (omega arith, refl)
binary-level token_slash h = (omega arith, refl)
binary-level token_percent h = (omega arith, refl)
binary-level token_eq h = (omega arith, refl)
binary-level token_not_eq h = (omega arith, refl)
binary-level token_lt h = (omega arith, refl)
binary-level token_gt h = (omega arith, refl)
binary-level token_le h = (omega arith, refl)
binary-level token_ge h = (omega arith, refl)
binary-level token_and h = (omega arith, refl)
binary-level token_or h = (omega arith, refl)
binary-level token_bit_and h = (omega arith, refl)
binary-level token_bit_or h = (omega arith, refl)
binary-level token_caret h = (omega arith, refl)
binary-level token_lshift h = (omega arith, refl)
binary-level token_rshift h = (omega arith, refl)
binary-level _ h = cc
