-- ===== src/CtValue/IntType.antt =====
-- src/ast/Type.h and src/ast/CtValue.cpp: the integer types, `stripTypedefs` and `ctIntInfo`. A type is modelled as far
-- as these read it; `none` is a null pointer.
use my_llvm_c.Prelude.{ℕ, Bool, true, false, Option, none, some}

-- `TypeKind`, without the kinds `Typedef` and `Enum` that have a constructor of `CtType` each.
pub data TypeKind : Type 0 where
  kind_void kind_char kind_bool kind_pointer kind_array kind_struct kind_class kind_union
        kind_function :
      TypeKind
  kind_int8 kind_int16 kind_int32 kind_int64 kind_int128 : TypeKind
  kind_uint8 kind_uint16 kind_uint32 kind_uint64 kind_uint128 kind_isize kind_usize : TypeKind
  kind_float32 kind_float64 kind_float16 kind_float128 kind_slice kind_optional kind_result :
      TypeKind
  kind_str kind_string kind_type_var kind_type_instance kind_auto : TypeKind

pub data CtType : Type 0 where
  null : CtType
  plain : TypeKind → CtType
  -- The aliased type, and the underlying type.
  typedef enum : CtType → CtType

pub record IntInfo : Type 0 where
  pub bits : ℕ
  pub is_unsigned : Bool
  pub is_bool : Bool

abbrev pub int_info : ℕ → Bool → Bool → Option IntInfo
int_info bits u b = some (record { bits = bits; is_unsigned = u; is_bool = b })

unfoldable pub kind_info : TypeKind → Option IntInfo
kind_info kind_bool = int_info 1 true true
kind_info kind_char = int_info 8 false false
kind_info kind_int8 = int_info 8 false false
kind_info kind_int16 = int_info 16 false false
kind_info kind_int32 = int_info 32 false false
kind_info kind_int64 = int_info 64 false false
kind_info kind_uint8 = int_info 8 true false
kind_info kind_uint16 = int_info 16 true false
kind_info kind_uint32 = int_info 32 true false
kind_info kind_uint64 = int_info 64 true false
kind_info kind_isize = int_info 64 false false
kind_info kind_usize = int_info 64 true false
kind_info kind_int128 = int_info 128 false false
kind_info kind_uint128 = int_info 128 true false
kind_info _ = none

-- An enumeration whose underlying type is absent or no integer counts as `int32`.
unfoldable pub enum_info : Option IntInfo → Option IntInfo
enum_info none = int_info 32 false false
enum_info (some i) = some i

-- `ctIntInfo`; its first statement strips typedefs, here the clause of `typedef`.
unfoldable pub ct_int_info : CtType → Option IntInfo
unfolding kind_info enum_info
ct_int_info null = none
ct_int_info (plain k) = kind_info k
ct_int_info (typedef t) = ct_int_info t
ct_int_info (enum t) = enum_info (ct_int_info t)
