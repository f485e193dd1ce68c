-- ===== src/Layout/Union/Holds.antt =====
-- src/ast/LayoutBuilder.cpp: the block of `buildUnion` has room for every member.
use my_llvm_c.Prelude.{ℕ, ◌≤◌, ◌≡◌, List, Option, none, some, All}
use my_llvm_c.Types.{AstType}
use my_llvm_c.Layout.{Field, Measure}
use my_llvm_c.Layout.Union.{UnionBuilder, member_type}

-- A member that the sizes and the alignment leave room for.
abbrev pub Holds : (AstType → Option Measure) → ℕ → ℕ → Field → Type 0
Holds measure size align f =
    (m : Measure) → measure (member_type f) ≡ some m → (m.bytes ≤ size) × (m.align ≤ align)

abbrev ChosenFits : ℕ → Option Measure → Type 0
ChosenFits size none = Unit
ChosenFits size (some m) = m.bytes ≤ size

record IsBig (measure : AstType → Option Measure) (u : UnionBuilder) (fs : List Field)
    (v : UnionBuilder) : Type 0 where
  size : u.max_size ≤ v.max_size
  align : u.max_align ≤ v.max_align
  holds : All (Holds measure v.max_size v.max_align) fs
  chosen : ChosenFits v.max_size v.chosen

module _ (measure : AstType → Option Measure) where
  record Grows (u : UnionBuilder) (f : Field) (v : UnionBuilder) : Type 0 where
    size : u.max_size ≤ v.max_size
    align : u.max_align ≤ v.max_align
    holds : Holds measure v.max_size v.max_align f
    chosen : ChosenFits v.max_size v.chosen
