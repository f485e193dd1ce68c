-- ===== src/Layout/Tight/Whole.antt =====
-- src/ast/LayoutBuilder.cpp: every step of `buildAggregate` keeps the slots tight and aligned.
use my_llvm_c.Prelude.{◌<◌, ◌≡◌, Option, some}
use my_llvm_c.Types.{AstType}
use my_llvm_c.Layout.{Measure}

-- The measure of a type has an alignment.
abbrev pub Measures : (AstType → Option Measure) → Type 0
Measures measure = (t : AstType) (m : Measure) → measure t ≡ some m → 0 < m.align
