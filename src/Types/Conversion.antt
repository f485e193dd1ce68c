-- ===== src/Types/Conversion.antt =====
-- src/ast/Symbol.cpp: `conversionRank`. The result -1 of no conversion is `none`.
pub mod Widens
use my_llvm_c.Prelude.{
  ℕ, Bool, true, false, ◌&&◌, ◌||◌, Option, none, some, ltb, leb, if◌then◌else◌,
}
use my_llvm_c.Types.{
  BasicKind, kind_void, kind_char, kind_bool, kind_int8, kind_int16, kind_int32, kind_int64,
  kind_int128, kind_uint8, kind_uint16, kind_uint32, kind_uint64, kind_uint128, kind_isize,
  kind_usize, kind_float32, kind_float64, kind_float16, kind_float128, kind_str, kind_string,
  kind_auto, Qualifiers, AstType, null, basic, pointer, array, struct, class, union, enum, function,
  typedef, slice, optional, result, type_var, type_instance, AstTypes, nil, cons, int32,
}
use my_llvm_c.Types.Equal.{types_equal}
use my_llvm_c.Types.Arithmetic.{is_null, float_width}

unfoldable pub basic_integer_width : BasicKind → ℕ
basic_integer_width kind_bool = 1
basic_integer_width kind_char = 8
basic_integer_width kind_int8 = 8
basic_integer_width kind_uint8 = 8
basic_integer_width kind_int16 = 16
basic_integer_width kind_uint16 = 16
basic_integer_width kind_int32 = 32
basic_integer_width kind_uint32 = 32
basic_integer_width kind_int64 = 64
basic_integer_width kind_uint64 = 64
basic_integer_width kind_isize = 64
basic_integer_width kind_usize = 64
basic_integer_width kind_int128 = 128
basic_integer_width kind_uint128 = 128
basic_integer_width _ = 0

-- `integerWidth`.
unfoldable pub integer_width : AstType → ℕ
unfolding basic_integer_width
integer_width (basic q k) = basic_integer_width k
integer_width (enum q s u) = 32
integer_width _ = 0

-- The loops that step through aliases. That of `conversionRank` reads through an alias of null, which no declaration
-- makes; here it stops at the null.
unfoldable pub strip_typedefs : AstType → AstType
strip_typedefs (typedef q s a) = strip_typedefs a
strip_typedefs t = t

unfoldable pub is_const_char : AstType → Bool
is_const_char (basic q kind_char) = q.is_const
is_const_char _ = false

unfoldable pub is_pointer_to_const_char : AstType → Bool
unfolding strip_typedefs is_const_char
is_pointer_to_const_char (pointer q a) = is_const_char (strip_typedefs a)
is_pointer_to_const_char _ = false

-- `isConstCharPointer`.
unfoldable pub is_const_char_pointer : AstType → Bool
unfolding strip_typedefs is_pointer_to_const_char
is_const_char_pointer t = is_pointer_to_const_char (strip_typedefs t)

unfoldable pub is_str : AstType → Bool
is_str (basic q kind_str) = true
is_str _ = false

unfoldable pub is_bool : AstType → Bool
is_bool (basic q kind_bool) = true
is_bool _ = false

unfoldable pub is_enum : AstType → Bool
is_enum (enum q s u) = true
is_enum _ = false

abbrev pub rank_if : Bool → ℕ → Option ℕ
rank_if b r = if b then some r else none

-- The tests that come before that on enumerations: arrays, and strings. `none` goes on to the next test.
unfoldable pub view_rank : AstType → AstType → Option ℕ
unfolding types_equal is_const_char_pointer is_str
view_rank (array q a n) (pointer r b) = some 1
view_rank (array q a n) (slice r b) = rank_if (types_equal a b) 1
view_rank (basic q kind_str) to = rank_if (is_const_char_pointer to) 1
view_rank (basic q kind_string) to = rank_if (is_const_char_pointer to || is_str to) 1
view_rank _ _ = none

-- The tests on pointers, the last ones; on the target, the source and its width.
unfoldable pub pointer_rank : AstType → AstType → ℕ → Option ℕ
pointer_rank (pointer r b) (pointer q a) fw = some 2
pointer_rank (pointer r (function q' b qs w)) (function q a ps v) fw = some 1
pointer_rank (pointer r b) from fw = rank_if (ltb 0 fw) 3
pointer_rank _ _ fw = none

unfoldable pub number_rank : AstType → AstType → Option ℕ
unfolding integer_width float_width is_bool pointer_rank
number_rank from to =
    let fw = integer_width from in
    let tw = integer_width to in
    let fb = float_width from in
    let tb = float_width to in
    if ltb 0 fw && is_bool to
    then some 2
    else if ltb 0 fw && (ltb 0 tw && leb fw tw)
    then some 1
    else if ltb 0 fw && ltb 0 tb
    then some 1
    else if ltb 0 fb && (ltb 0 tb && leb fb tb)
    then some 1
    else pointer_rank to from fw

unfoldable pub distinct_rank : AstType → AstType → Option ℕ → Option ℕ
unfolding is_enum number_rank
distinct_rank from to (some r) = some r
distinct_rank from to none = if is_enum from || is_enum to then none else number_rank from to

unfoldable pub stripped_rank : AstType → AstType → Option ℕ
unfolding is_null types_equal view_rank distinct_rank
stripped_rank from to =
    if is_null from || is_null to
    then none
    else if types_equal from to
    then some 0
    else distinct_rank from to (view_rank from to)

-- `conversionRank`.
unfoldable pub conversion_rank : AstType → AstType → Option ℕ
unfolding is_null types_equal strip_typedefs stripped_rank
conversion_rank from to =
    if is_null from || is_null to
    then none
    else if types_equal from to
    then some 0
    else stripped_rank (strip_typedefs from) (strip_typedefs to)
