-- ===== src/Mangle.antt =====
-- src/ast/Mangle.cpp: the names of symbols.
mod Tests
pub mod Names
pub mod Agrees
use my_llvm_c.Prelude.{
  ℕ, ◌+◌, ℤ, pos, negsuc, Bool, true, false, ◌||◌, List, [], ◌∷◌, ◌++◌, if◌then◌else◌, Bytes,
  bytes_eq, codes,
}
use my_llvm_c.Format.Decimal.{to_string}
use my_llvm_c.Types.{
  BasicKind, kind_void, kind_char, kind_bool, kind_int8, kind_int16, kind_int32, kind_int64,
  kind_int128, kind_uint8, kind_uint16, kind_uint32, kind_uint64, kind_uint128, kind_isize,
  kind_usize, kind_float32, kind_float64, kind_float16, kind_float128, kind_str, kind_string,
  kind_auto, Qualifiers, AstType, null, basic, pointer, array, struct, class, union, enum, function,
  typedef, slice, optional, result, type_var, type_instance, AstTypes, nil, cons,
}

-- The names with C linkage, and those of them that were declared in a namespace.
pub record LinkageNames : Type 0 where
  pub c_names : List Bytes
  pub namespace_c_names : List Bytes

unfoldable pub has : Bytes → List Bytes → Bool
unfolding bytes_eq
has name [] = false
has name (n ∷ rest) = bytes_eq n name || has name rest

-- `insert` of a set.
unfoldable pub insert : Bytes → List Bytes → List Bytes
unfolding has
insert name names = if has name names then names else name ∷ names

unfoldable pub mark_c_name : Bytes → LinkageNames → LinkageNames
unfolding insert
mark_c_name name l = record l { c_names = insert name l.c_names }

unfoldable pub mark_namespace_c_name : Bytes → LinkageNames → LinkageNames
unfolding insert
mark_namespace_c_name name l = record {
  c_names = insert name l.c_names;
  namespace_c_names = insert name l.namespace_c_names;
}

unfoldable pub is_c_name : Bytes → LinkageNames → Bool
unfolding has
is_c_name name l = has name l.c_names

unfoldable pub is_namespace_c_name : Bytes → LinkageNames → Bool
unfolding has
is_namespace_c_name name l = has name l.namespace_c_names

-- The word of a scalar, and whether an atomic one has the tag.
unfoldable pub kind_word : BasicKind → Bytes
kind_word kind_void = codes "void"
kind_word kind_char = codes "char"
kind_word kind_bool = codes "bool"
kind_word kind_int8 = codes "int8"
kind_word kind_int16 = codes "int16"
kind_word kind_int32 = codes "int32"
kind_word kind_int64 = codes "int64"
kind_word kind_int128 = codes "int128"
kind_word kind_uint8 = codes "uint8"
kind_word kind_uint16 = codes "uint16"
kind_word kind_uint32 = codes "uint32"
kind_word kind_uint64 = codes "uint64"
kind_word kind_uint128 = codes "uint128"
kind_word kind_str = codes "str"
kind_word kind_string = codes "string"
kind_word kind_isize = codes "isize"
kind_word kind_usize = codes "usize"
kind_word kind_float32 = codes "float32"
kind_word kind_float64 = codes "float64"
kind_word _ = codes "unknown"

unfoldable pub is_tagged : BasicKind → Bool
is_tagged kind_float16 = false
is_tagged kind_float32 = false
is_tagged kind_float64 = false
is_tagged kind_float128 = false
is_tagged kind_auto = false
is_tagged _ = true

unfoldable pub atomic_tag : Bool → Bytes
atomic_tag true = codes "atomic"
atomic_tag false = []

unfoldable pub enum_name : Bytes → Bytes
enum_name [] = codes "int32"
enum_name (c ∷ name) = c ∷ name

-- `std::to_string` of a `long long`.
unfoldable pub signed_to_string : ℤ → Bytes
unfolding to_string
signed_to_string (pos n) = to_string n
signed_to_string (negsuc n) = b'-' ∷ to_string (n + 1)

unfoldable pub value_args_mangled : List ℤ → Bytes
unfolding signed_to_string
value_args_mangled [] = []
value_args_mangled (v ∷ vs) = b'$' ∷ signed_to_string v ++ value_args_mangled vs

-- `typeToMangled`.
unfoldable mutual
  unfolding kind_word is_tagged atomic_tag enum_name value_args_mangled

  pub type_to_mangled : AstType → Bytes
  type_to_mangled null = codes "unknown"
  type_to_mangled (basic q k) =
      if is_tagged k then atomic_tag q.is_atomic ++ kind_word k else kind_word k
  type_to_mangled (pointer q a) = type_to_mangled a ++ codes "ptr"
  type_to_mangled (array q a n) = type_to_mangled a ++ codes "arr"
  type_to_mangled (struct q s) = s
  type_to_mangled (class q s) = s
  type_to_mangled (union q s) = s
  type_to_mangled (enum q s u) = enum_name s
  type_to_mangled (slice q a) = type_to_mangled a ++ codes "slice"
  type_to_mangled (optional q a) = type_to_mangled a ++ codes "opt"
  type_to_mangled (result q a e) = type_to_mangled a ++ codes "res" ++ type_to_mangled e
  type_to_mangled (typedef q s a) = type_to_mangled a
  type_to_mangled (type_var q s) = s
  type_to_mangled (type_instance q s ts vs) = s ++ joined_mangled b'$' ts ++ value_args_mangled vs
  type_to_mangled (function q a ps v) = codes "unknown"

  -- Each name behind a separator.
  pub joined_mangled : ℕ → AstTypes → Bytes
  joined_mangled c nil = []
  joined_mangled c (cons t ts) = c ∷ type_to_mangled t ++ joined_mangled c ts

unfoldable pub mangle_function : LinkageNames → Bytes → AstTypes → Bytes
unfolding is_c_name type_to_mangled joined_mangled
mangle_function l name params =
    if is_c_name name l then name else name ++ joined_mangled b'_' params
