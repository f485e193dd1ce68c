-- ===== src/Types/Equal/Canonical.antt =====
-- src/ast/Symbol.cpp: what `typesEqual` compares, as a part of each type.
pub mod Iff
use my_llvm_c.Prelude.{
  get_or, ℕ, int_eq, int_eq_refl, int_eq_eq, Bool, true, false, ◌&&◌, List, [], ◌∷◌, Bytes,
  bytes_eq, ◌==◌, ==_iff, ◌≡◌, refl, sym, ap, ap₂, ◌∙◌, ◌↔◌,
}
use my_llvm_c.Types.{
  BasicKind, kind_void, kind_char, kind_bool, kind_int8, kind_int16, kind_int32, kind_int64,
  kind_int128, kind_uint8, kind_uint16, kind_uint32, kind_uint64, kind_uint128, kind_isize,
  kind_usize, kind_float32, kind_float64, kind_float16, kind_float128, kind_str, kind_string,
  kind_auto, Qualifiers, AstType, null, basic, pointer, array, struct, class, union, enum, function,
  typedef, slice, optional, result, type_var, type_instance, AstTypes, nil, cons,
}
use my_llvm_c.Types.Equal.{kind_value, same_bool, types_equal, all_equal}

-- Only whether it is atomic.
abbrev pub atomicity : Qualifiers → Qualifiers
atomicity q = record { is_atomic = q.is_atomic; is_const = false }

-- A type without what its identity does not depend on: other qualifiers, the names of aliases and type parameters,
-- the underlying types of enumerations, open parameter lists and template arguments.
unfoldable mutual
  pub canonical : AstType → AstType
  canonical null = null
  canonical (basic q k) = basic (atomicity q) k
  canonical (pointer q a) = pointer (atomicity q) (canonical a)
  canonical (array q a n) = array (atomicity q) (canonical a) n
  canonical (struct q s) = struct (atomicity q) s
  canonical (class q s) = class (atomicity q) s
  canonical (union q s) = union (atomicity q) s
  canonical (enum q s u) = enum (atomicity q) s null
  canonical (function q a ps v) = function (atomicity q) (canonical a) (canonicals ps) false
  canonical (typedef q s a) = typedef (atomicity q) [] (canonical a)
  canonical (slice q a) = slice (atomicity q) (canonical a)
  canonical (optional q a) = optional (atomicity q) (canonical a)
  canonical (result q a e) = result (atomicity q) (canonical a) (canonical e)
  canonical (type_var q s) = type_var (atomicity q) []
  canonical (type_instance q s ts vs) = type_instance (atomicity q) [] nil []

  pub canonicals : AstTypes → AstTypes
  canonicals nil = nil
  canonicals (cons a cs) = cons (canonical a) (canonicals cs)

same_bool_refl : (b : Bool) → same_bool b b ≡ true
unfolding same_bool
same_bool_refl true = refl
same_bool_refl false = refl

pub same_bool_eq : (b c : Bool) → same_bool b c ≡ true → b ≡ c
unfolding same_bool
same_bool_eq true true e = refl
same_bool_eq false false e = refl
same_bool_eq true false e = absurd (cc)
same_bool_eq false true e = absurd (cc)

pub bytes_eq_refl : (s : Bytes) → bytes_eq s s ≡ true
unfolding bytes_eq
bytes_eq_refl [] = refl
bytes_eq_refl (c ∷ s) = rw ((==_iff c c).1 refl) (bytes_eq_refl s)

pub and-true : (a b : Bool) → (a && b) ≡ true → (a ≡ true) × (b ≡ true)
and-true true b e = (refl, e)
and-true false b e = absurd (cc)

pub bytes_eq_eq : (s t : Bytes) → bytes_eq s t ≡ true → s ≡ t
unfolding bytes_eq
bytes_eq_eq [] [] e = refl
bytes_eq_eq [] (d ∷ t) e = absurd (cc)
bytes_eq_eq (c ∷ s) [] e = absurd (cc)
bytes_eq_eq (c ∷ s) (d ∷ t) e =
    let (h, r) = and-true (c == d) (bytes_eq s t) e in
    let x = (==_iff c d).0 h in let y = bytes_eq_eq s t r in cc

-- The constants of `TypeKind` are told apart by their values, which leave gaps for the kinds of the other classes.
abbrev kinds : List BasicKind
kinds =
    kind_void ∷ kind_char ∷ kind_bool ∷ kind_auto ∷ kind_auto ∷ kind_auto ∷ kind_auto ∷ kind_auto
    ∷ kind_auto ∷ kind_auto ∷ kind_auto ∷ kind_int8 ∷ kind_int16 ∷ kind_int32 ∷ kind_int64
    ∷ kind_int128 ∷ kind_uint8 ∷ kind_uint16 ∷ kind_uint32 ∷ kind_uint64 ∷ kind_uint128 ∷ kind_isize
    ∷ kind_usize ∷ kind_float32 ∷ kind_float64 ∷ kind_float16 ∷ kind_float128 ∷ kind_auto
    ∷ kind_auto ∷ kind_auto ∷ kind_str ∷ kind_string ∷ []

abbrev kind_of_value : ℕ → BasicKind
kind_of_value n = get_or kinds n kind_auto

kind_of_value-kind_value : (k : BasicKind) → kind_of_value (kind_value k) ≡ k
unfolding kind_value
kind_of_value-kind_value kind_void = refl
kind_of_value-kind_value kind_char = refl
kind_of_value-kind_value kind_bool = refl
kind_of_value-kind_value kind_int8 = refl
kind_of_value-kind_value kind_int16 = refl
kind_of_value-kind_value kind_int32 = refl
kind_of_value-kind_value kind_int64 = refl
kind_of_value-kind_value kind_int128 = refl
kind_of_value-kind_value kind_uint8 = refl
kind_of_value-kind_value kind_uint16 = refl
kind_of_value-kind_value kind_uint32 = refl
kind_of_value-kind_value kind_uint64 = refl
kind_of_value-kind_value kind_uint128 = refl
kind_of_value-kind_value kind_isize = refl
kind_of_value-kind_value kind_usize = refl
kind_of_value-kind_value kind_float32 = refl
kind_of_value-kind_value kind_float64 = refl
kind_of_value-kind_value kind_float16 = refl
kind_of_value-kind_value kind_float128 = refl
kind_of_value-kind_value kind_str = refl
kind_of_value-kind_value kind_string = refl
kind_of_value-kind_value kind_auto = refl

pub kind_eq : (k l : BasicKind) → (kind_value k == kind_value l) ≡ true → k ≡ l
kind_eq k l e =
    sym (kind_of_value-kind_value k)
    ∙ ap kind_of_value ((==_iff (kind_value k) (kind_value l)).0 e)
    ∙ kind_of_value-kind_value l

mutual
  unfolding types_equal all_equal

  pub types_equal_refl : (t : AstType) → types_equal t t ≡ true
  types_equal_refl null = refl
  types_equal_refl (basic q k) =
      rw ((==_iff (kind_value k) (kind_value k)).1 refl) (same_bool_refl q.is_atomic)
  types_equal_refl (pointer q a) = rw (same_bool_refl q.is_atomic) (types_equal_refl a)
  types_equal_refl (array q a n) =
      rw (same_bool_refl q.is_atomic, int_eq_refl n) (types_equal_refl a)
  types_equal_refl (struct q s) = rw (same_bool_refl q.is_atomic) (bytes_eq_refl s)
  types_equal_refl (class q s) = rw (same_bool_refl q.is_atomic) (bytes_eq_refl s)
  types_equal_refl (union q s) = rw (same_bool_refl q.is_atomic) (bytes_eq_refl s)
  types_equal_refl (enum q s u) = rw (same_bool_refl q.is_atomic) (bytes_eq_refl s)
  types_equal_refl (function q a ps v) =
      rw (same_bool_refl q.is_atomic, types_equal_refl a) (all_equal_refl ps)
  types_equal_refl (typedef q s a) = rw (same_bool_refl q.is_atomic) (types_equal_refl a)
  types_equal_refl (slice q a) = rw (same_bool_refl q.is_atomic) (types_equal_refl a)
  types_equal_refl (optional q a) = rw (same_bool_refl q.is_atomic) (types_equal_refl a)
  types_equal_refl (result q a e) =
      rw (same_bool_refl q.is_atomic, types_equal_refl a) (types_equal_refl e)
  types_equal_refl (type_var q s) = same_bool_refl q.is_atomic
  types_equal_refl (type_instance q s ts vs) = same_bool_refl q.is_atomic

  all_equal_refl : (ts : AstTypes) → all_equal ts ts ≡ true
  all_equal_refl nil = refl
  all_equal_refl (cons t ts) = rw (types_equal_refl t) (all_equal_refl ts)
