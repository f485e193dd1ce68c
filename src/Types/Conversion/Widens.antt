-- ===== src/Types/Conversion/Widens.antt =====
-- src/ast/Symbol.cpp: what the rank of a conversion says.
use my_llvm_c.Prelude.{◌<◌, ◌≤◌, ◌≡◌, ◌⊎◌}
use my_llvm_c.Types.{AstType}
use my_llvm_c.Types.Arithmetic.{float_width}
use my_llvm_c.Types.Conversion.{integer_width}

-- The widths of a type that is neither a number nor an enumeration.
record NoNumber (t : AstType) : Type 0 where
  integers : integer_width t ≡ 0
  floats : float_width t ≡ 0

-- From a number to a number no bits are lost: to an integer only from integers that are no wider, to a floating type
-- from any integer and from floating types that are no wider.
pub record Widens (from to : AstType) : Type 0 where
  pub integers :
      0 < integer_width to → (0 < integer_width from) × (integer_width from ≤ integer_width to)
  pub floats :
      0 < float_width to
      → (0 < integer_width from) ⊎ ((0 < float_width from) × (float_width from ≤ float_width to))
