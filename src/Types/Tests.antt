-- ===== src/Types/Tests.antt =====
-- Runs of the functions on types.
use my_llvm_c.Prelude.{◌≡◌, refl, true, false, none, codes}
use my_llvm_c.Types.{AstType, basic, kind_int64, kind_uint32, kind_uint8, typedef, enum, plain}
use my_llvm_c.Types.Equal.{types_equal}
use my_llvm_c.Types.Arithmetic.{
  is_arithmetic_type, has_arithmetic_kind, integer_rank, basic_rank, usual_arithmetic_type,
}
use my_llvm_c.Types.Arithmetic.Common.{class_of, common}
use my_llvm_c.Types.Arithmetic.Common.Usual.{class_in_arithmetic, usual_arithmetic_type-common}
use my_llvm_c.Types.Conversion.{conversion_rank}
use my_llvm_c.Types.Conversion.Widens.{Widens}

abbrev uint32 : AstType
uint32 = basic plain kind_uint32

abbrev int64 : AstType
int64 = basic plain kind_int64

-- An enumeration over `uint8`, behind an alias.
abbrev color : AstType
color = typedef plain (codes "Color") (enum plain (codes "E") (basic plain kind_uint8))

-- `uint32` and an alias of it differ.
alias_differs : types_equal uint32 (typedef plain (codes "u32") uint32) ≡ false
unfolding types_equal
alias_differs = refl

-- An enumeration is promoted to `int32`, and `uint32` wins against it.
mixed_sum : usual_arithmetic_type color uint32 ≡ uint32
unfolding usual_arithmetic_type
mixed_sum = refl

color_is_arithmetic : is_arithmetic_type color ≡ true
unfolding is_arithmetic_type has_arithmetic_kind integer_rank basic_rank
color_is_arithmetic = refl

uint32_is_arithmetic : is_arithmetic_type uint32 ≡ true
unfolding is_arithmetic_type has_arithmetic_kind integer_rank basic_rank
uint32_is_arithmetic = refl

usual_arithmetic_type-common_example :
    class_of (usual_arithmetic_type color uint32)
    ≡ common (class_in_arithmetic color) (class_in_arithmetic uint32)
usual_arithmetic_type-common_example =
    usual_arithmetic_type-common color uint32 color_is_arithmetic uint32_is_arithmetic

-- The other way round is no conversion.
narrowing : conversion_rank int64 uint32 ≡ none
unfolding conversion_rank
narrowing = refl
