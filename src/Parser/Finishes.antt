-- ===== src/Parser/Finishes.antt =====
-- src/frontend/Parser.cpp: the tokens that `parseExpr` leaves, and its steps.
use my_llvm_c.Prelude.{
  ℕ, zero, suc, ◌*◌, ◌≤◌, ◌<◌, ◌≡◌, ◌≢◌, refl, List, [], ◌∷◌, Option, none, some, length, arith,
  inl, inr, Bool-cases,
}
use my_llvm_c.Token.{Token}
use my_llvm_c.Parser.Infix.{Action, stop, comma, question, assigns, binds, action, is_colon}
use my_llvm_c.Parser.Climb.{
  Expr, operand, comma_expr, ternary_expr, assignment_expr, binary_expr, skip_colon, Parsed, parsed,
  failed, stuck, Task, expr, climb, and_then, with_operand, act, parse_fuel, parse_expr,
}

skip_colon-length : (toks : List Token) → length (skip_colon toks) ≤ length toks
unfolding skip_colon
skip_colon-length [] = omega arith
skip_colon-length (t ∷ rest) = elim (Bool-cases (is_colon t.type)) [
  | inl e ↦ rw e (omega arith)
  | inr e ↦ rw e (omega arith)
]

module _ {E : Type 0} where
  -- A result that leaves at most `n` tokens, and is not `stuck`.
  abbrev Within : ℕ → Parsed E → Type 0
  Within n (parsed e rest) = length rest ≤ n
  Within n failed = Unit
  Within n stuck = 1 ≤ 0

  abbrev task_length : Task E → ℕ
  task_length (expr min toks) = length toks
  task_length (climb min lhs toks) = length toks

  and_then-Within :
      (m n : ℕ) (r : Parsed E) (next : Expr E → List Token → Parsed E)
      → Within m r
      → ((e : Expr E) (rest : List Token) → length rest ≤ m → Within n (next e rest))
      → Within n (and_then r next)
  unfolding and_then
  and_then-Within m n (parsed e rest) next w k = k e rest w
  and_then-Within m n failed next w k = tt
  and_then-Within m n stuck next w k = elim w [ ]

  Within-le : (m n : ℕ) (r : Parsed E) → m ≤ n → Within m r → Within n r
  Within-le m n (parsed e rest) l w = omega (arith, l, w)
  Within-le m n failed l w = tt
  Within-le m n stuck l w = elim w [ ]

  module _ (m : ℕ) (run : Task E → Parsed E)
      (ih : (task : Task E) → task_length task ≤ m → Within m (run task)) (min : ℕ) (lhs : Expr E)
      (t : Token) (rest : List Token) (short : length rest ≤ m) where
    -- Read a right side, and go on with the loop.
    side-Within :
        (p : ℕ) (toks : List Token) (node : Expr E → Expr E)
        → length toks ≤ m
        → Within (suc m) (and_then (run (expr p toks)) (λ r left. run (climb min (node r) left)))
    side-Within p toks node l =
        and_then-Within m (suc m) (run (expr p toks)) _ (ih (expr p toks) l) (λ r left k.
          Within-le m (suc m) (run (climb min (node r) left)) (omega arith)
            (ih (climb min (node r) left) k))

    act-Within :
        (a : Action) → suc (length rest) ≤ suc m → Within (suc m) (act run min lhs t rest a)
    unfolding act
    act-Within stop l = l
    act-Within comma l = side-Within _ rest (comma_expr lhs) short
    act-Within question l =
        and_then-Within m (suc m) (run (expr 0 rest)) _ (ih (expr 0 rest) short) (λ y middle k.
          side-Within 2 (skip_colon middle) (ternary_expr lhs y)
            (omega (arith, k, skip_colon-length middle)))
    act-Within (assigns op) l = side-Within _ rest (assignment_expr op lhs) short
    act-Within (binds op) l = side-Within _ rest (binary_expr op lhs) short

-- Every operand that is read takes a token.
abbrev pub TakesToken : {E : Type 0} → (List Token → Option (E × List Token)) → Type 0
TakesToken {E} operands =
    (toks : List Token) (e : E) (rest : List Token)
    → operands toks ≡ some (e, rest)
    → length rest < length toks

module _ {E : Type 0} (operands : List Token → Option (E × List Token)) (depth : ℕ)
    (takes : TakesToken operands) where
  operand-Within :
      (toks : List Token) (n : ℕ) (r : Option (E × List Token))
      (next : Expr E → List Token → Parsed E)
      → operands toks ≡ r
      → ((e : Expr E) (rest : List Token) → length rest < length toks → Within n (next e rest))
      → Within n (with_operand r next)
  unfolding with_operand
  operand-Within toks n none next e k = tt
  operand-Within toks n (some (x, rest)) next e k = k (operand x) rest (takes toks x rest e)

  parse_fuel-Within :
      (n : ℕ) (task : Task E)
      → suc (2 * task_length task) ≤ n
      → Within (task_length task) (parse_fuel operands depth n task)
  unfolding parse_fuel
  parse_fuel-Within zero task h = elim (none-left h) [ ]
    where
      none-left : suc (2 * task_length task) ≤ 0 → 1 ≤ 0
      none-left h = omega (arith, h)
  parse_fuel-Within (suc n) (expr min []) h = tt
  parse_fuel-Within (suc n) (expr min (t ∷ rest)) h =
      operand-Within (t ∷ rest) (length (t ∷ rest)) (operands (t ∷ rest)) _ refl (λ e left l.
        Within-le (length left) (length (t ∷ rest)) (parse_fuel operands depth n (climb min e left))
          (omega (arith, l)) (parse_fuel-Within n (climb min e left) (omega (arith, l, h))))
  parse_fuel-Within (suc n) (climb min lhs []) h = omega arith
  parse_fuel-Within (suc n) (climb min lhs (t ∷ rest)) h =
      act-Within (length rest) (λ task. parse_fuel operands depth n task)
        (λ task l.
          Within-le (task_length task) (length rest) (parse_fuel operands depth n task) l
            (parse_fuel-Within n task (omega (arith, l, h))))
        min lhs t rest (omega arith) (action depth min t.type) (omega arith)

Within-stuck : {E : Type 0} (n : ℕ) (r : Parsed E) → Within n r → r ≢ stuck
Within-stuck n (parsed e rest) w = λ d. cc
Within-stuck n failed w = λ d. cc
Within-stuck n stuck w = elim w [ ]

-- If every operand takes a token, `parseExpr` comes to an end of its own: the steps do not run out.
pub parse_expr-finishes :
    {E : Type 0} (operands : List Token → Option (E × List Token)) (depth min : ℕ)
    (toks : List Token)
    → TakesToken operands
    → parse_expr operands depth min toks ≢ stuck
unfolding parse_expr
parse_expr-finishes operands depth min toks takes =
    Within-stuck (length toks) _
      (parse_fuel-Within operands depth takes (suc (2 * length toks)) (expr min toks) (omega arith))
