-- ===== src/Parser/Sound.antt =====
-- src/frontend/Parser.cpp: what `parseExpr` returns, against the grammar of levels.
use my_llvm_c.Prelude.{ℕ, ◌≤◌, ◌<◌, ◌≡◌, ◌⊎◌, List, [], ◌∷◌, Option}
use my_llvm_c.Token.{Token}
use my_llvm_c.Parser.Infix.{Action, stop, comma, question, assigns, binds, action}
use my_llvm_c.Parser.Levels.{level}
use my_llvm_c.Parser.Climb.{Expr, Parsed, parsed, failed, stuck, Task, expr, climb}
use my_llvm_c.Parser.Grammar.{Derives}

-- The level that an operator wants of its left side.
unfoldable needed_level : Action → ℕ → ℕ
needed_level stop p = 0
needed_level comma p = 1
needed_level question p = 4
needed_level (assigns op) p = 3
needed_level (binds op) p = p

module _ (depth : ℕ) where
  abbrev head_level : List Token → ℕ
  head_level [] = 0
  head_level (t ∷ rest) = needed_level (action depth 0 t.type) (level t.type)

  -- The token in front is no operator, or one that is looser than `min`.
  abbrev pub Ended : ℕ → List Token → Type 0
  Ended min [] = Unit
  Ended min (t ∷ rest) = (action depth 0 t.type ≡ stop) ⊎ (level t.type < min)

module _ {E : Type 0} (operands : List Token → Option (E × List Token)) (depth : ℕ) where
  abbrev Good : List Token → ℕ → Parsed E → Type 0
  Good start min (parsed e rest) = Derives operands min e start rest × Ended depth min rest
  Good start min failed = Unit
  Good start min stuck = Unit

  -- A left side that was read from `start`, tight enough for the operator in front of `toks`.
  record IsLeft (start : List Token) (min : ℕ) (lhs : Expr E) (toks : List Token) : Type 0 where
    top : ℕ
    derives : Derives operands top lhs start toks
    above : min ≤ top
    fits : head_level depth toks ≤ top

  abbrev TaskOk : List Token → Task E → Type 0
  TaskOk start (expr min toks) = start ≡ toks
  TaskOk start (climb min lhs toks) = IsLeft start min lhs toks

  abbrev task_min : Task E → ℕ
  task_min (expr min toks) = min
  task_min (climb min lhs toks) = min
