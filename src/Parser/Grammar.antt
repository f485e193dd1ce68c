-- ===== src/Parser/Grammar.antt =====
-- src/frontend/Parser.cpp and docs/spec/grammar.ebnf: the grammar of expressions by levels, which `parseExpr` has to follow.
use my_llvm_c.Prelude.{
  ℕ, suc, ◌≤◌, ◌≡◌, refl, inl, inr, true, false, ◌&&◌, List, ◌∷◌, Option, some, ltb, arith,
  Bool-cases, Option-cases,
}
use my_llvm_c.Token.{Token, TokenType}
use my_llvm_c.Operators.{AssignOp}
use my_llvm_c.Parser.Infix.{
  to_binary_op, to_assign_op, closes_template, stop, comma, question, assigns, binds, is_comma,
  is_question, is_invalid, assign_action, binary_action, action,
}
use my_llvm_c.Parser.Levels.{level}
use my_llvm_c.Parser.Climb.{
  Expr, operand, comma_expr, ternary_expr, assignment_expr, binary_expr, skip_colon,
}

-- `Derives operands q e toks rest`: at level `q` or above, `e` is read from `toks`, and `rest` is left. A binary operator of
-- level `p` has a left side of level `p` and a right side above it; an assignment has its left side above the
-- conditional expression's level 3 or at it, and associates to the right; the condition of `?` is above that level.
pub data Derives {E : Type 0} (operands : List Token → Option (E × List Token))
    : ℕ → Expr E → List Token → List Token → Type 0 where
  d_operand :
      {q : ℕ} {e : E} {toks rest : List Token}
      → operands toks ≡ some (e, rest)
      → Derives operands q (operand e) toks rest
  d_comma :
      {q : ℕ} {l r : Expr E} {toks mid rest : List Token} (t : Token)
      → q ≤ 1
      → is_comma t.type ≡ true
      → Derives operands 1 l toks (t ∷ mid)
      → Derives operands 2 r mid rest
      → Derives operands q (comma_expr l r) toks rest
  d_ternary :
      {q : ℕ} {c y n : Expr E} {toks m1 m2 rest : List Token} (t : Token)
      → q ≤ 3
      → is_question t.type ≡ true
      → Derives operands 4 c toks (t ∷ m1)
      → Derives operands 0 y m1 m2
      → Derives operands 2 n (skip_colon m2) rest
      → Derives operands q (ternary_expr c y n) toks rest
  d_assign :
      {q : ℕ} {op : AssignOp} {l r : Expr E} {toks mid rest : List Token} (t : Token)
      → q ≤ 2
      → to_assign_op t.type ≡ some op
      → Derives operands 3 l toks (t ∷ mid)
      → Derives operands 2 r mid rest
      → Derives operands q (assignment_expr op l r) toks rest
  d_binary :
      {q : ℕ} {l r : Expr E} {toks mid rest : List Token} (t : Token)
      → q ≤ level t.type
      → is_invalid (to_binary_op t.type) ≡ false
      → Derives operands (level t.type) l toks (t ∷ mid)
      → Derives operands (suc (level t.type)) r mid rest
      → Derives operands q (binary_expr (to_binary_op t.type) l r) toks rest

-- What is of a level is of every lower one.
pub Derives-le :
    {E : Type 0} {operands : List Token → Option (E × List Token)} {p q : ℕ} {e : Expr E}
    {toks rest : List Token}
    → q ≤ p
    → Derives operands p e toks rest
    → Derives operands q e toks rest
Derives-le h (d_operand e) = d_operand e
Derives-le h (d_comma t l c a b) = d_comma t (omega (arith, h, l)) c a b
Derives-le h (d_ternary t l c a b d) = d_ternary t (omega (arith, h, l)) c a b d
Derives-le h (d_assign t l c a b) = d_assign t (omega (arith, h, l)) c a b
Derives-le h (d_binary t l c a b) = d_binary t (omega (arith, h, l)) c a b

-- What the loop does with a token when nothing is too loose, and why.
pub data Kind (depth : ℕ) (t : TokenType) : Type 0 where
  k_stop : action depth 0 t ≡ stop → Kind depth t
  k_comma : action depth 0 t ≡ comma → is_comma t ≡ true → Kind depth t
  k_question : action depth 0 t ≡ question → is_question t ≡ true → Kind depth t
  k_assigns :
      (op : AssignOp) → action depth 0 t ≡ assigns op → to_assign_op t ≡ some op → Kind depth t
  k_binds :
      action depth 0 t ≡ binds (to_binary_op t) → is_invalid (to_binary_op t) ≡ false → Kind depth t

not-below-zero : (n : ℕ) → ltb n 0 ≡ false
not-below-zero n = ground arith

pub action-Kind : (depth : ℕ) (t : TokenType) → Kind depth t
unfolding action assign_action binary_action
action-Kind depth t = elim (Bool-cases (ltb 0 depth && closes_template t)) [
  | inl d ↦ k_stop (rw d refl)
  | inr d ↦ elim (Bool-cases (is_comma t)) [
    | inl c ↦ k_comma (rw (d, not-below-zero (level t), c) refl) c
    | inr c ↦ elim (Bool-cases (is_question t)) [
      | inl q ↦ k_question (rw (d, not-below-zero (level t), c, q) refl) q
      | inr q ↦ elim (Option-cases (to_assign_op t)) [
        | inr (op, a) ↦ k_assigns op (rw (d, not-below-zero (level t), c, q, a) refl) a
        | inl a ↦ elim (Bool-cases (ltb 0 (level t))) [
          | inr z ↦ k_stop (rw (d, not-below-zero (level t), c, q, a, z) refl)
          | inl z ↦ elim (Bool-cases (is_invalid (to_binary_op t))) [
            | inl i ↦ k_stop (rw (d, not-below-zero (level t), c, q, a, z, i) refl)
            | inr i ↦ k_binds (rw (d, not-below-zero (level t), c, q, a, z, i) refl) i
          ]
        ]
      ]
    ]
  ]
]
