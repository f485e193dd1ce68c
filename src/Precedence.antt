-- ===== src/Precedence.antt =====
-- src/frontend/OperatorPrecedence.cpp: the table of infix operators that the parser reads.
use my_llvm_c.Prelude.{ℕ, Bool, true, false}
use my_llvm_c.Token.{
  TokenType, token_comma, token_assign, token_plus_eq, token_minus_eq, token_star_eq,
  token_slash_eq, token_percent_eq, token_amp_eq, token_pipe_eq, token_caret_eq, token_lshift_eq,
  token_rshift_eq, token_question, token_or, token_and, token_bit_or, token_caret, token_bit_and,
  token_eq, token_not_eq, token_lt, token_gt, token_le, token_ge, token_lshift, token_rshift,
  token_plus, token_minus, token_star, token_slash, token_percent,
}

pub record OperatorInfo : Type 0 where
  pub precedence : ℕ
  pub right_associative : Bool

abbrev pub info : ℕ → Bool → OperatorInfo
info p r = record { precedence = p; right_associative = r }

-- `precedence` 0 marks a token that is no infix operator.
unfoldable pub get_operator_info : TokenType → OperatorInfo
get_operator_info token_comma = info 1 false
get_operator_info token_assign = info 2 true
get_operator_info token_plus_eq = info 2 true
get_operator_info token_minus_eq = info 2 true
get_operator_info token_star_eq = info 2 true
get_operator_info token_slash_eq = info 2 true
get_operator_info token_percent_eq = info 2 true
get_operator_info token_amp_eq = info 2 true
get_operator_info token_pipe_eq = info 2 true
get_operator_info token_caret_eq = info 2 true
get_operator_info token_lshift_eq = info 2 true
get_operator_info token_rshift_eq = info 2 true
get_operator_info token_question = info 3 true
get_operator_info token_or = info 4 false
get_operator_info token_and = info 5 false
get_operator_info token_bit_or = info 6 false
get_operator_info token_caret = info 7 false
get_operator_info token_bit_and = info 8 false
get_operator_info token_eq = info 9 false
get_operator_info token_not_eq = info 9 false
get_operator_info token_lt = info 10 false
get_operator_info token_gt = info 10 false
get_operator_info token_le = info 10 false
get_operator_info token_ge = info 10 false
get_operator_info token_lshift = info 11 false
get_operator_info token_rshift = info 11 false
get_operator_info token_plus = info 12 false
get_operator_info token_minus = info 12 false
get_operator_info token_star = info 13 false
get_operator_info token_slash = info 13 false
get_operator_info token_percent = info 13 false
get_operator_info _ = info 0 false
