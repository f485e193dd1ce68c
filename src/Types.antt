-- ===== src/Types.antt =====
-- src/ast/Type.h: the types of the compiled language.
mod Tests
pub mod Equal
pub mod Arithmetic
pub mod Conversion
use my_llvm_c.Prelude.{ℤ, ℕ, suc, Bool, false, List, Bytes}

-- The kinds of `TypeKind` that no class of their own and no pointee belong to.
pub data BasicKind : Type 0 where
  kind_void kind_char kind_bool : BasicKind
  kind_int8 kind_int16 kind_int32 kind_int64 kind_int128 : BasicKind
  kind_uint8 kind_uint16 kind_uint32 kind_uint64 kind_uint128 kind_isize kind_usize : BasicKind
  kind_float32 kind_float64 kind_float16 kind_float128 kind_str kind_string kind_auto : BasicKind

-- The qualifiers of `Type` that the functions below read.
pub record Qualifiers : Type 0 where
  pub is_atomic : Bool
  pub is_const : Bool

-- `Type` and its subclasses, read as a tree; `null` is a null pointer. A structure, class or union is its name: the
-- functions below look at nothing else of it.
mutual
  pub data AstType : Type 0 where
    null : AstType
    basic : Qualifiers → BasicKind → AstType
    pointer : Qualifiers → AstType → AstType
    array : Qualifiers → AstType → ℤ → AstType
    struct class union : Qualifiers → Bytes → AstType
    -- The name, and the underlying type or null.
    enum : Qualifiers → Bytes → AstType → AstType
    -- The return type, the parameters, and whether more arguments are taken.
    function : Qualifiers → AstType → AstTypes → Bool → AstType
    typedef : Qualifiers → Bytes → AstType → AstType
    slice optional : Qualifiers → AstType → AstType
    result : Qualifiers → AstType → AstType → AstType
    type_var : Qualifiers → Bytes → AstType
    -- The template, its type arguments and its value arguments.
    type_instance : Qualifiers → Bytes → AstTypes → List ℤ → AstType

  pub data AstTypes : Type 0 where
    nil : AstTypes
    cons : AstType → AstTypes → AstTypes

abbrev pub count : AstTypes → ℕ
count nil = 0
count (cons t ts) = suc (count ts)

abbrev pub plain : Qualifiers
plain = record { is_atomic = false; is_const = false }

-- `getInt32` of the type context.
abbrev pub int32 : AstType
int32 = basic plain kind_int32
