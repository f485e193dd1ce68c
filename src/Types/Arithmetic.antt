-- ===== src/Types/Arithmetic.antt =====
-- src/ast/Symbol.cpp: integer promotion and the usual arithmetic conversions. A kind is looked up in the type that has
-- it; the rank -1 of no integer is `none`.
pub mod Common
use my_llvm_c.Prelude.{
  ℕ, Bool, true, false, ◌&&◌, ◌||◌, Option, none, some, ltb, leb, if◌then◌else◌,
}
use my_llvm_c.Types.{
  BasicKind, kind_void, kind_char, kind_bool, kind_int8, kind_int16, kind_int32, kind_int64,
  kind_int128, kind_uint8, kind_uint16, kind_uint32, kind_uint64, kind_uint128, kind_isize,
  kind_usize, kind_float32, kind_float64, kind_float16, kind_float128, kind_str, kind_string,
  kind_auto, Qualifiers, AstType, null, basic, pointer, array, struct, class, union, enum, function,
  typedef, slice, optional, result, type_var, type_instance, AstTypes, nil, cons, int32,
}
use my_llvm_c.Types.Equal.{same_bool}

unfoldable pub basic_rank : BasicKind → Option ℕ
basic_rank kind_bool = some 0
basic_rank kind_char = some 1
basic_rank kind_int8 = some 1
basic_rank kind_uint8 = some 1
basic_rank kind_int16 = some 2
basic_rank kind_uint16 = some 2
basic_rank kind_int32 = some 3
basic_rank kind_uint32 = some 3
basic_rank kind_int64 = some 4
basic_rank kind_uint64 = some 4
basic_rank kind_isize = some 4
basic_rank kind_usize = some 4
basic_rank kind_int128 = some 5
basic_rank kind_uint128 = some 5
basic_rank _ = none

-- `integerRank`.
unfoldable pub integer_rank : AstType → Option ℕ
unfolding basic_rank
integer_rank (basic q k) = basic_rank k
integer_rank _ = none

unfoldable pub basic_float_width : BasicKind → ℕ
basic_float_width kind_float16 = 16
basic_float_width kind_float32 = 32
basic_float_width kind_float64 = 64
basic_float_width kind_float128 = 128
basic_float_width _ = 0

-- `floatWidth`.
unfoldable pub float_width : AstType → ℕ
unfolding basic_float_width
float_width (basic q k) = basic_float_width k
float_width _ = 0

unfoldable pub basic_is_unsigned : BasicKind → Bool
basic_is_unsigned kind_uint8 = true
basic_is_unsigned kind_uint16 = true
basic_is_unsigned kind_uint32 = true
basic_is_unsigned kind_uint64 = true
basic_is_unsigned kind_uint128 = true
basic_is_unsigned kind_usize = true
basic_is_unsigned _ = false

-- `isUnsignedKind`.
unfoldable pub is_unsigned_kind : AstType → Bool
unfolding basic_is_unsigned
is_unsigned_kind (basic q k) = basic_is_unsigned k
is_unsigned_kind _ = false

unfoldable pub is_null : AstType → Bool
is_null null = true
is_null _ = false

-- `arithmeticUnderlying`.
unfoldable pub arithmetic_underlying : AstType → AstType
unfolding is_null
arithmetic_underlying (typedef q s a) = arithmetic_underlying a
arithmetic_underlying (enum q s u) =
    let underlying = arithmetic_underlying u in if is_null u then int32 else underlying
arithmetic_underlying t = t

-- `isArithmeticType`, on what `arithmeticUnderlying` gives.
unfoldable pub has_arithmetic_kind : AstType → Bool
has_arithmetic_kind t = elim (integer_rank t) [ none ↦ ltb 0 (float_width t) | some r ↦ true ]

unfoldable pub is_arithmetic_type : AstType → Bool
unfolding arithmetic_underlying has_arithmetic_kind
is_arithmetic_type t = has_arithmetic_kind (arithmetic_underlying t)

unfoldable pub promote_underlying : AstType → AstType
unfolding integer_rank float_width
promote_underlying t =
    if ltb 0 (float_width t)
    then t
    else elim (integer_rank t) [ none ↦ t | some r ↦ if ltb r 3 then int32 else t ]

-- `promoteArithmeticType`. A null pointer has no kind, and stays.
unfoldable pub promote_arithmetic_type : AstType → AstType
unfolding arithmetic_underlying promote_underlying
promote_arithmetic_type t = promote_underlying (arithmetic_underlying t)

-- The choice between two integer types of ranks `ra` and `rb`.
unfoldable pub wider_integer : AstType → AstType → ℕ → ℕ → AstType
unfolding is_unsigned_kind same_bool
wider_integer a b ra rb =
    if same_bool (is_unsigned_kind a) (is_unsigned_kind b)
    then (if leb rb ra then a else b)
    else if is_unsigned_kind a
    then (if leb rb ra then a else b)
    else if leb ra rb
    then b
    else a

unfoldable pub usual_integer : AstType → AstType → Option ℕ → Option ℕ → AstType
unfolding wider_integer
usual_integer a b (some ra) (some rb) = wider_integer a b ra rb
usual_integer a b _ _ = a

unfoldable pub usual_promoted : AstType → AstType → AstType
unfolding float_width integer_rank usual_integer
usual_promoted a b =
    let fa = float_width a in
    let fb = float_width b in
    if ltb 0 fa || ltb 0 fb
    then (if ltb 0 fa && ltb 0 fb then (if leb fb fa then a else b) else if ltb 0 fa then a else b)
    else usual_integer a b (integer_rank a) (integer_rank b)

-- `usualArithmeticType`.
unfoldable pub usual_arithmetic_type : AstType → AstType → AstType
unfolding promote_arithmetic_type is_null usual_promoted
usual_arithmetic_type a b =
    let pa = promote_arithmetic_type a in
    let pb = promote_arithmetic_type b in
    if is_null pa then pb else if is_null pb then pa else usual_promoted pa pb

unfoldable pub is_unsigned_underlying : AstType → Bool
unfolding float_width integer_rank is_unsigned_kind
is_unsigned_underlying t = if ltb 0 (float_width t) then false else elim (integer_rank t) [
  | none ↦ false
  | some r ↦ if ltb r 3 then false else is_unsigned_kind t
]

-- `isUnsignedArithmeticType`.
unfoldable pub is_unsigned_arithmetic_type : AstType → Bool
unfolding arithmetic_underlying is_unsigned_underlying
is_unsigned_arithmetic_type t = is_unsigned_underlying (arithmetic_underlying t)

-- `isUnsignedIntegerType`.
unfoldable pub is_unsigned_integer_type : AstType → Bool
unfolding arithmetic_underlying is_unsigned_kind
is_unsigned_integer_type t = is_unsigned_kind (arithmetic_underlying t)
