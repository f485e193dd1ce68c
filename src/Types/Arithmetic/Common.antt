-- ===== src/Types/Arithmetic/Common.antt =====
-- src/ast/Symbol.cpp: the type that `usualArithmeticType` gives, against a description by width, rank and sign.
pub mod Usual
use my_llvm_c.Prelude.{
  Bool-cases, inl, inr, subst, ℕ, ◌<◌, lt→ltb, max, Bool, true, false, ◌||◌, Option, none, some,
  ltb, leb, ◌==◌, if◌then◌else◌, ◌≡◌, refl, sym, ap, ap₂, ◌∙◌, arith,
}
use my_llvm_c.Types.{
  BasicKind, kind_void, kind_char, kind_bool, kind_int8, kind_int16, kind_int32, kind_int64,
  kind_int128, kind_uint8, kind_uint16, kind_uint32, kind_uint64, kind_uint128, kind_isize,
  kind_usize, kind_float32, kind_float64, kind_float16, kind_float128, kind_str, kind_string,
  kind_auto, AstType, null, basic, pointer, array, struct, class, union, enum, function, typedef,
  slice, optional, result, type_var, type_instance, int32,
}
use my_llvm_c.Types.Equal.{same_bool}
use my_llvm_c.Types.Arithmetic.{
  basic_rank, integer_rank, basic_float_width, float_width, basic_is_unsigned, is_unsigned_kind,
  is_null, arithmetic_underlying, has_arithmetic_kind, is_arithmetic_type, promote_underlying,
  promote_arithmetic_type, wider_integer, usual_integer, usual_promoted, usual_arithmetic_type,
  is_unsigned_underlying, is_unsigned_arithmetic_type,
}

-- What arithmetic depends on: the width of a floating type; the rank of an integer type and whether it is unsigned.
pub data Class : Type 0 where
  other : Class
  floating : ℕ → Class
  integer : ℕ → Bool → Class

unfoldable pub kind_class : BasicKind → Class
kind_class kind_float16 = floating 16
kind_class kind_float32 = floating 32
kind_class kind_float64 = floating 64
kind_class kind_float128 = floating 128
kind_class kind_bool = integer 0 false
kind_class kind_char = integer 1 false
kind_class kind_int8 = integer 1 false
kind_class kind_int16 = integer 2 false
kind_class kind_int32 = integer 3 false
kind_class kind_int64 = integer 4 false
kind_class kind_isize = integer 4 false
kind_class kind_int128 = integer 5 false
kind_class kind_uint8 = integer 1 true
kind_class kind_uint16 = integer 2 true
kind_class kind_uint32 = integer 3 true
kind_class kind_uint64 = integer 4 true
kind_class kind_usize = integer 4 true
kind_class kind_uint128 = integer 5 true
kind_class _ = other

unfoldable pub class_of : AstType → Class
unfolding kind_class
class_of (basic q k) = kind_class k
class_of _ = other

-- Promotion: an integer below the rank of `int32` counts as `int32`.
unfoldable pub promoted : Class → Class
promoted (integer r u) = if ltb r 3 then integer 3 false else integer r u
promoted c = c

-- The common class: the wider floating one; else the integer of the higher rank, which is unsigned if the one of that
-- rank is, and at equal ranks if either is.
unfoldable pub common : Class → Class → Class
common (floating v) (floating w) = floating (max v w)
common (floating v) _ = floating v
common _ (floating w) = floating w
common (integer r u) (integer s v) =
    integer (max r s) (if r == s then u || v else if ltb r s then v else u)
common _ _ = other

unfoldable pub class_width : Class → ℕ
class_width (floating w) = w
class_width _ = 0

unfoldable pub class_rank : Class → Option ℕ
class_rank (integer r u) = some r
class_rank _ = none

unfoldable pub class_unsigned : Class → Bool
class_unsigned (integer r u) = u
class_unsigned _ = false

abbrev pub IsClass : Class → Type 0
IsClass (floating w) = 0 < w
IsClass _ = Unit

-- The tests of a kind read its class.
pub record ReadsClass (w : ℕ) (r : Option ℕ) (u : Bool) (c : Class) : Type 0 where
  pub width : w ≡ class_width c
  pub rank : r ≡ class_rank c
  pub sign : u ≡ class_unsigned c
  pub is_class : IsClass c

kind_reads :
    (k : BasicKind)
    → ReadsClass (basic_float_width k) (basic_rank k) (basic_is_unsigned k) (kind_class k)
unfolding basic_float_width basic_rank basic_is_unsigned kind_class class_width class_rank
    class_unsigned
kind_reads kind_void = record { width = refl; rank = refl; sign = refl; is_class = tt }
kind_reads kind_char = record { width = refl; rank = refl; sign = refl; is_class = tt }
kind_reads kind_bool = record { width = refl; rank = refl; sign = refl; is_class = tt }
kind_reads kind_int8 = record { width = refl; rank = refl; sign = refl; is_class = tt }
kind_reads kind_int16 = record { width = refl; rank = refl; sign = refl; is_class = tt }
kind_reads kind_int32 = record { width = refl; rank = refl; sign = refl; is_class = tt }
kind_reads kind_int64 = record { width = refl; rank = refl; sign = refl; is_class = tt }
kind_reads kind_int128 = record { width = refl; rank = refl; sign = refl; is_class = tt }
kind_reads kind_uint8 = record { width = refl; rank = refl; sign = refl; is_class = tt }
kind_reads kind_uint16 = record { width = refl; rank = refl; sign = refl; is_class = tt }
kind_reads kind_uint32 = record { width = refl; rank = refl; sign = refl; is_class = tt }
kind_reads kind_uint64 = record { width = refl; rank = refl; sign = refl; is_class = tt }
kind_reads kind_uint128 = record { width = refl; rank = refl; sign = refl; is_class = tt }
kind_reads kind_isize = record { width = refl; rank = refl; sign = refl; is_class = tt }
kind_reads kind_usize = record { width = refl; rank = refl; sign = refl; is_class = tt }
kind_reads kind_float32 = record { width = refl; rank = refl; sign = refl; is_class = omega arith }
kind_reads kind_float64 = record { width = refl; rank = refl; sign = refl; is_class = omega arith }
kind_reads kind_float16 = record { width = refl; rank = refl; sign = refl; is_class = omega arith }
kind_reads kind_float128 = record { width = refl; rank = refl; sign = refl; is_class = omega arith }
kind_reads kind_str = record { width = refl; rank = refl; sign = refl; is_class = tt }
kind_reads kind_string = record { width = refl; rank = refl; sign = refl; is_class = tt }
kind_reads kind_auto = record { width = refl; rank = refl; sign = refl; is_class = tt }

pub reads :
    (t : AstType) → ReadsClass (float_width t) (integer_rank t) (is_unsigned_kind t) (class_of t)
unfolding float_width integer_rank is_unsigned_kind class_of class_width class_rank class_unsigned
reads null = record { width = refl; rank = refl; sign = refl; is_class = tt }
reads (basic q a) = kind_reads a
reads (pointer q a) = record { width = refl; rank = refl; sign = refl; is_class = tt }
reads (array q a b) = record { width = refl; rank = refl; sign = refl; is_class = tt }
reads (struct q a) = record { width = refl; rank = refl; sign = refl; is_class = tt }
reads (class q a) = record { width = refl; rank = refl; sign = refl; is_class = tt }
reads (union q a) = record { width = refl; rank = refl; sign = refl; is_class = tt }
reads (enum q a b) = record { width = refl; rank = refl; sign = refl; is_class = tt }
reads (function q a b c) = record { width = refl; rank = refl; sign = refl; is_class = tt }
reads (typedef q a b) = record { width = refl; rank = refl; sign = refl; is_class = tt }
reads (slice q a) = record { width = refl; rank = refl; sign = refl; is_class = tt }
reads (optional q a) = record { width = refl; rank = refl; sign = refl; is_class = tt }
reads (result q a b) = record { width = refl; rank = refl; sign = refl; is_class = tt }
reads (type_var q a) = record { width = refl; rank = refl; sign = refl; is_class = tt }
reads (type_instance q a b c) = record { width = refl; rank = refl; sign = refl; is_class = tt }

pub choose-class :
    (p : Bool) (a b : AstType)
    → class_of (if p then a else b) ≡ (if p then class_of a else class_of b)
choose-class true a b = refl
choose-class false a b = refl

-- The choice that `usual_promoted` makes, on classes.
unfoldable pub chosen : Class → Class → Class
chosen (floating v) (floating w) = if leb w v then floating v else floating w
chosen (floating v) c = floating v
chosen c (floating w) = floating w
chosen (integer r u) (integer s v) =
    if same_bool u v
    then (if leb s r then integer r u else integer s v)
    else if u
    then (if leb s r then integer r u else integer s v)
    else if leb r s
    then integer s v
    else integer r u
chosen c _ = c

pub chosen-common :
    (r s : ℕ) (u v : Bool) → chosen (integer r u) (integer s v) ≡ common (integer r u) (integer s v)
unfolding chosen common same_bool
chosen-common r s true true = ground arith
chosen-common r s true false = ground arith
chosen-common r s false true = ground arith
chosen-common r s false false = ground arith
