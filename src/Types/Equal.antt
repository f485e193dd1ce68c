-- ===== src/Types/Equal.antt =====
-- src/ast/Symbol.cpp: `typesEqual`.
pub mod Canonical
use my_llvm_c.Prelude.{
  ℕ, ℤ, int_eq, int_eq_refl, int_eq_eq, Bool, true, false, ◌&&◌, Bytes, bytes_eq, ◌==◌, ◌≡◌, refl,
}
use my_llvm_c.Types.{
  BasicKind, kind_void, kind_char, kind_bool, kind_int8, kind_int16, kind_int32, kind_int64,
  kind_int128, kind_uint8, kind_uint16, kind_uint32, kind_uint64, kind_uint128, kind_isize,
  kind_usize, kind_float32, kind_float64, kind_float16, kind_float128, kind_str, kind_string,
  kind_auto, Qualifiers, AstType, null, basic, pointer, array, struct, class, union, enum, function,
  typedef, slice, optional, result, type_var, type_instance, AstTypes, nil, cons,
}

-- The value that the compiler gives the constant of `TypeKind`.
unfoldable pub kind_value : BasicKind → ℕ
kind_value kind_void = 0
kind_value kind_char = 1
kind_value kind_bool = 2
kind_value kind_int8 = 11
kind_value kind_int16 = 12
kind_value kind_int32 = 13
kind_value kind_int64 = 14
kind_value kind_int128 = 15
kind_value kind_uint8 = 16
kind_value kind_uint16 = 17
kind_value kind_uint32 = 18
kind_value kind_uint64 = 19
kind_value kind_uint128 = 20
kind_value kind_isize = 21
kind_value kind_usize = 22
kind_value kind_float32 = 23
kind_value kind_float64 = 24
kind_value kind_float16 = 25
kind_value kind_float128 = 26
kind_value kind_str = 30
kind_value kind_string = 31
kind_value kind_auto = 34

unfoldable pub same_bool : Bool → Bool → Bool
same_bool true true = true
same_bool false false = true
same_bool _ _ = false

abbrev pub same_atomic : Qualifiers → Qualifiers → Bool
same_atomic q r = same_bool q.is_atomic r.is_atomic

-- `typesEqual`: each clause of two equal constructors is a case of its `switch`, behind the test of the qualifier.
unfoldable mutual
  unfolding kind_value same_bool int_eq bytes_eq

  pub types_equal : AstType → AstType → Bool
  types_equal null null = true
  types_equal (basic q k) (basic r l) = kind_value k == kind_value l && same_atomic q r
  types_equal (pointer q a) (pointer r b) = same_atomic q r && types_equal a b
  types_equal (optional q a) (optional r b) = same_atomic q r && types_equal a b
  types_equal (result q a e) (result r b f) =
      same_atomic q r && (types_equal a b && types_equal e f)
  types_equal (array q a n) (array r b m) = same_atomic q r && (int_eq n m && types_equal a b)
  types_equal (struct q s) (struct r t) = same_atomic q r && bytes_eq s t
  types_equal (class q s) (class r t) = same_atomic q r && bytes_eq s t
  types_equal (union q s) (union r t) = same_atomic q r && bytes_eq s t
  types_equal (enum q s _) (enum r t _) = same_atomic q r && bytes_eq s t
  types_equal (typedef q _ a) (typedef r _ b) = same_atomic q r && types_equal a b
  types_equal (slice q a) (slice r b) = same_atomic q r && types_equal a b
  types_equal (function q a ps _) (function r b qs _) =
      same_atomic q r && (types_equal a b && all_equal ps qs)
  types_equal (type_var q _) (type_var r _) = same_atomic q r
  types_equal (type_instance q _ _ _) (type_instance r _ _ _) = same_atomic q r
  types_equal _ _ = false

  -- The comparison of the parameters: as many, and equal one by one.
  pub all_equal : AstTypes → AstTypes → Bool
  all_equal nil nil = true
  all_equal (cons a cs) (cons b bs) = types_equal a b && all_equal cs bs
  all_equal _ _ = false
