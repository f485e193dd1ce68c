-- ===== src/Parser/Climb.antt =====
-- src/frontend/Parser.cpp: `parseExpr`, precedence climbing over the tokens behind the position. The operands, which
-- `parseUnary` and `parsePostfix` read, are a parameter; `depth` is `m_templateArgDepth`, which `parseExpr` does not change.
use my_llvm_c.Prelude.{
  ℕ, zero, suc, ◌+◌, ◌*◌, length, List, [], ◌∷◌, Option, none, some, if◌then◌else◌,
}
use my_llvm_c.Token.{Token}
use my_llvm_c.Precedence.{get_operator_info}
use my_llvm_c.Operators.{BinaryOp, AssignOp}
use my_llvm_c.Parser.Infix.{
  Action, stop, comma, question, assigns, binds, action, right_level, is_colon,
}

-- The expressions that `parseExpr` builds over its operands.
pub data Expr (E : Type 0) : Type 0 where
  operand : E → Expr E
  comma_expr : Expr E → Expr E → Expr E
  ternary_expr : Expr E → Expr E → Expr E → Expr E
  assignment_expr : AssignOp → Expr E → Expr E → Expr E
  binary_expr : BinaryOp → Expr E → Expr E → Expr E

-- An expression and the tokens behind it; `failed` is `nullptr`, and `stuck` says that the steps ran out.
pub data Parsed (E : Type 0) : Type 0 where
  parsed : Expr E → List Token → Parsed E
  failed stuck : Parsed E

-- A call of `parseExpr`, or its loop with the left side read so far.
pub data Task (E : Type 0) : Type 0 where
  expr : ℕ → List Token → Task E
  climb : ℕ → Expr E → List Token → Task E

-- `match(TokenType::TOKEN_COLON)`, whose result is not looked at.
unfoldable pub skip_colon : List Token → List Token
skip_colon [] = []
skip_colon (t ∷ rest) = if is_colon t.type then rest else t ∷ rest

module _ {E : Type 0} where
  -- `if (!rhs) return nullptr;`
  unfoldable pub and_then : Parsed E → (Expr E → List Token → Parsed E) → Parsed E
  and_then (parsed e rest) next = next e rest
  and_then failed next = failed
  and_then stuck next = stuck

  unfoldable pub with_operand :
      Option (E × List Token) → (Expr E → List Token → Parsed E) → Parsed E
  with_operand none next = failed
  with_operand (some (e, rest)) next = next (operand e) rest

  -- One round of the loop, by the action on the token `t` in front of `rest`.
  unfoldable pub act : (Task E → Parsed E) → ℕ → Expr E → Token → List Token → Action → Parsed E
  unfolding and_then
  act run min lhs t rest stop = parsed lhs (t ∷ rest)
  act run min lhs t rest comma =
      and_then (run (expr ((get_operator_info t.type).precedence + 1) rest))
        (λ rhs left. run (climb min (comma_expr lhs rhs) left))
  act run min lhs t rest question = and_then (run (expr 0 rest)) (λ yes_expr middle.
      and_then (run (expr 2 (skip_colon middle)))
        (λ no_expr left. run (climb min (ternary_expr lhs yes_expr no_expr) left)))
  act run min lhs t rest (assigns op) =
      and_then (run (expr (get_operator_info t.type).precedence rest))
        (λ rhs left. run (climb min (assignment_expr op lhs rhs) left))
  act run min lhs t rest (binds op) =
      and_then (run (expr (right_level t.type) rest))
        (λ rhs left. run (climb min (binary_expr op lhs rhs) left))

  module _ (operands : List Token → Option (E × List Token)) (depth : ℕ) where
    unfoldable pub parse_fuel : ℕ → Task E → Parsed E
    parse_fuel zero task = stuck
    parse_fuel (suc n) (expr min []) = failed
    parse_fuel (suc n) (expr min (t ∷ rest)) =
        with_operand (operands (t ∷ rest)) (λ e left. parse_fuel n (climb min e left))
    parse_fuel (suc n) (climb min lhs []) = parsed lhs []
    parse_fuel (suc n) (climb min lhs (t ∷ rest)) =
        act (λ task. parse_fuel n task) min lhs t rest (action depth min t.type)

    -- Every operand takes a token at least, so two steps for each token are enough.
    unfoldable pub parse_expr : ℕ → List Token → Parsed E
    parse_expr min toks = parse_fuel (suc (2 * length toks)) (expr min toks)
