-- ===== src/Parser/Tests.antt =====
-- src/frontend/Parser.cpp: runs of `parseExpr` with single tokens as operands.
use my_llvm_c.Prelude.{
  ◌≡◌, ◌≢◌, ◌<◌, false, List, [], ◌∷◌, Option, none, some, length, arith, subst, ap,
}
use my_llvm_c.Token.{
  Token, TokenType, monostate, no_kind, no_prefix, token_identifier, token_plus, token_star,
  token_assign,
}
use my_llvm_c.Operators.{op_add, op_mul, assign}
use my_llvm_c.Parser.Climb.{Expr, operand, assignment_expr, binary_expr, stuck, parse_expr}
use my_llvm_c.Parser.Finishes.{TakesToken, parse_expr-finishes}

abbrev token : TokenType → Token
token type = record {
  type = type;
  lexeme = [];
  value = monostate;
  filename = [];
  line = 1;
  column = 1;
  literal_kind = no_kind;
  string_prefix = no_prefix;
  is_multiline_string = false;
}

abbrev name : Token
name = token token_identifier

abbrev single : List Token → Option (Token × List Token)
single [] = none
single (t ∷ rest) = some (t, rest)

abbrev left_of : Option (Token × List Token) → List Token
left_of none = []
left_of (some (t, rest)) = rest

left_of-single :
    (t e : Token) (rest left : List Token) → single (t ∷ rest) ≡ some (e, left) → rest ≡ left
left_of-single t e rest left h = ap left_of h

single-TakesToken : TakesToken single
single-TakesToken [] e rest h = absurd (cc)
single-TakesToken (t ∷ toks) e rest h =
    subst (λ r. length r < length (t ∷ toks)) (left_of-single t e toks rest h) (omega arith)

-- `a = b + c * d`
abbrev sum : List Token
sum = name ∷ token token_assign ∷ name ∷ token token_plus ∷ name ∷ token token_star ∷ name ∷ []

abbrev sum_expr : Expr Token
sum_expr =
    assignment_expr assign (operand name)
      (binary_expr op_add (operand name) (binary_expr op_mul (operand name) (operand name)))

parse_expr-finishes_example : parse_expr single 0 0 sum ≢ stuck
parse_expr-finishes_example = parse_expr-finishes single 0 0 sum single-TakesToken
