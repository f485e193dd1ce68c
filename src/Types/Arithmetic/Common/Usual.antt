-- ===== src/Types/Arithmetic/Common/Usual.antt =====
-- src/ast/Symbol.cpp: promotion and `usualArithmeticType` on classes.
use my_llvm_c.Prelude.{
  Bool-cases, inl, inr, subst, ℕ, lt→ltb, Bool, true, false, Option, none, some, ltb, leb,
  if◌then◌else◌, ◌≡◌, refl, sym, ap, ap₂, ◌∙◌, arith,
}
use my_llvm_c.Types.{AstType, null, basic, int32}
use my_llvm_c.Types.Equal.{same_bool}
use my_llvm_c.Types.Arithmetic.{
  integer_rank, float_width, is_unsigned_kind, is_null, arithmetic_underlying, has_arithmetic_kind,
  is_arithmetic_type, promote_underlying, promote_arithmetic_type, wider_integer, usual_integer,
  usual_promoted, usual_arithmetic_type, is_unsigned_underlying, is_unsigned_arithmetic_type,
}
use my_llvm_c.Types.Arithmetic.Common.{
  Class, other, floating, integer, kind_class, class_of, promoted, common, class_width, class_rank,
  class_unsigned, IsClass, reads, choose-class, chosen, chosen-common,
}

-- A type with the class `c`, and what the tests give on it.
record HasClass (t : AstType) (c : Class) : Type 0 where
  class_is : class_of t ≡ c
  width : float_width t ≡ class_width c
  rank : integer_rank t ≡ class_rank c
  sign : is_unsigned_kind t ≡ class_unsigned c

has_class : (t : AstType) → HasClass t (class_of t)
has_class t =
    let r = reads t in record { class_is = refl; width = r.width; rank = r.rank; sign = r.sign }

-- The order of the tests does not matter: by cases of the classes.
usual_promoted-chosen :
    (a b : AstType) (c d : Class)
    → HasClass a c
    → HasClass b d
    → IsClass c
    → IsClass d
    → class_of (usual_promoted a b) ≡ chosen c d
unfolding usual_promoted usual_integer wider_integer chosen class_width class_rank class_unsigned
usual_promoted-chosen a b other other h k p q = rw (h.width, k.width, h.rank) h.class_is
usual_promoted-chosen a b other (floating w) h k p q =
    rw (h.width, k.width, lt→ltb 0 w q) k.class_is
usual_promoted-chosen a b other (integer s v) h k p q = rw (h.width, k.width, h.rank) h.class_is
usual_promoted-chosen a b (floating w) other h k p q =
    rw (h.width, k.width, lt→ltb 0 w p) h.class_is
usual_promoted-chosen a b (floating v) (floating w) h k p q =
    rw
      (
        h.width,
        k.width,
        lt→ltb 0 v p,
        lt→ltb 0 w q,
        choose-class (leb w v) a b,
        h.class_is,
        k.class_is,
      )
      refl
usual_promoted-chosen a b (floating w) (integer s v) h k p q =
    rw (h.width, k.width, lt→ltb 0 w p) h.class_is
usual_promoted-chosen a b (integer r u) other h k p q =
    rw (h.width, k.width, h.rank, k.rank) h.class_is
usual_promoted-chosen a b (integer r u) (floating w) h k p q =
    rw (h.width, k.width, lt→ltb 0 w q) k.class_is
usual_promoted-chosen a b (integer r u) (integer s v) h k p q =
    rw (h.width, k.width, h.rank, k.rank, h.sign, k.sign)
      (chooses (same_bool u v) u (leb s r) (leb r s))
  where
    chooses :
        (same un down up : Bool)
        → class_of (
            if same
            then (if down then a else b)
            else if un
            then (if down then a else b)
            else if up
            then b
            else a)
          ≡ (if same
              then (if down then integer r u else integer s v)
              else if un
              then (if down then integer r u else integer s v)
              else if up
              then integer s v
              else integer r u)
    chooses true un true up = h.class_is
    chooses true un false up = k.class_is
    chooses false true true up = h.class_is
    chooses false true false up = k.class_is
    chooses false false down true = k.class_is
    chooses false false down false = h.class_is

class_of-int32 : class_of int32 ≡ integer 3 false
unfolding class_of kind_class
class_of-int32 = refl

-- Promotion on classes.
class_of-promote_underlying :
    (t : AstType) (c : Class)
    → HasClass t c
    → IsClass c
    → class_of (promote_underlying t) ≡ promoted c
unfolding promote_underlying class_width class_rank class_unsigned promoted
class_of-promote_underlying t other h p = rw (h.width, h.rank) h.class_is
class_of-promote_underlying t (floating w) h p = rw (h.width, lt→ltb 0 w p) h.class_is
class_of-promote_underlying t (integer r u) h p =
    rw (h.width, h.rank, choose-class (ltb r 3) int32 t, h.class_is, class_of-int32) refl

class_of-promote :
    (t : AstType)
    → class_of (promote_arithmetic_type t) ≡ promoted (class_of (arithmetic_underlying t))
unfolding promote_arithmetic_type
class_of-promote t =
    class_of-promote_underlying (arithmetic_underlying t) (class_of (arithmetic_underlying t))
      (has_class (arithmetic_underlying t)) (reads (arithmetic_underlying t)).is_class

-- A class of arithmetic.
abbrev IsArithmetic : Class → Type 0
IsArithmetic other = ⊥
IsArithmetic _ = Unit

promoted-IsClass : (c : Class) → IsClass c → IsClass (promoted c)
unfolding promoted
promoted-IsClass other p = tt
promoted-IsClass (floating w) p = p
promoted-IsClass (integer r u) p = elim (Bool-cases (ltb r 3)) [ inl e ↦ rw e tt | inr e ↦ rw e tt ]

promoted-IsArithmetic : (c : Class) → IsArithmetic c → IsArithmetic (promoted c)
unfolding promoted
promoted-IsArithmetic other p = p
promoted-IsArithmetic (floating w) p = tt
promoted-IsArithmetic (integer r u) p = elim (Bool-cases (ltb r 3)) [
  | inl e ↦ rw e tt
  | inr e ↦ rw e tt
]

no_rank :
    (r : Option ℕ) (w : ℕ)
    → r ≡ none
    → w ≡ 0
    → (elim r [ none ↦ ltb 0 w | some _ ↦ true ]) ≡ true
    → ⊥
no_rank none w e f h = ground arith
no_rank (some r) w e f h = absurd (cc)

has_arithmetic_kind-IsArithmetic :
    (t : AstType) (c : Class) → HasClass t c → has_arithmetic_kind t ≡ true → IsArithmetic c
unfolding has_arithmetic_kind class_width class_rank
has_arithmetic_kind-IsArithmetic t other h e =
    absurd (no_rank (integer_rank t) (float_width t) h.rank h.width e)
has_arithmetic_kind-IsArithmetic t (floating w) h e = tt
has_arithmetic_kind-IsArithmetic t (integer r u) h e = tt

not_null : (t : AstType) → IsArithmetic (class_of t) → is_null t ≡ false
unfolding class_of is_null
not_null null h = elim h [ ]
not_null (basic q k) h = refl
not_null _ h = cc

chosen-arithmetic : (c d : Class) → IsArithmetic c → IsArithmetic d → chosen c d ≡ common c d
unfolding chosen common
chosen-arithmetic other d p q = elim p [ ]
chosen-arithmetic (floating v) other p q = elim q [ ]
chosen-arithmetic (floating v) (floating w) p q = ground arith
chosen-arithmetic (floating v) (integer s u) p q = refl
chosen-arithmetic (integer r u) other p q = elim q [ ]
chosen-arithmetic (integer r u) (floating w) p q = refl
chosen-arithmetic (integer r u) (integer s v) p q = chosen-common r s u v

-- The class of a type in arithmetic: that of what its aliases and enumerations stand for.
abbrev pub class_in_arithmetic : AstType → Class
class_in_arithmetic t = promoted (class_of (arithmetic_underlying t))

-- usualArithmeticType of two arithmetic types gives one of the common class of the promoted operands: the wider
-- floating type if there is one, else the integer of the higher rank, unsigned if the operand of that rank is, or either
-- one at equal ranks.
pub usual_arithmetic_type-common :
    (a b : AstType)
    → is_arithmetic_type a ≡ true
    → is_arithmetic_type b ≡ true
    → class_of (usual_arithmetic_type a b) ≡ common (class_in_arithmetic a) (class_in_arithmetic b)
unfolding usual_arithmetic_type is_arithmetic_type
usual_arithmetic_type-common a b e f =
    let x = arithmetic_underlying a in
    let y = arithmetic_underlying b in
    let p =
      promoted-IsArithmetic (class_of x)
        (has_arithmetic_kind-IsArithmetic x (class_of x) (has_class x) e) in
    let q =
      promoted-IsArithmetic (class_of y)
        (has_arithmetic_kind-IsArithmetic y (class_of y) (has_class y) f) in
    let c = class_of-promote a in
    let d = class_of-promote b in
    let n = not_null (promote_arithmetic_type a) (subst IsArithmetic (sym c) p) in
    let m = not_null (promote_arithmetic_type b) (subst IsArithmetic (sym d) q) in
    rw (n, m)
      (usual_promoted-chosen (promote_arithmetic_type a) (promote_arithmetic_type b)
          (class_of (promote_arithmetic_type a)) (class_of (promote_arithmetic_type b))
          (has_class (promote_arithmetic_type a)) (has_class (promote_arithmetic_type b))
          (reads (promote_arithmetic_type a)).is_class (reads (promote_arithmetic_type b)).is_class
        ∙ ap₂ chosen c d
        ∙ chosen-arithmetic (class_in_arithmetic a) (class_in_arithmetic b) p q)

common_comm : (c d : Class) → IsArithmetic c → IsArithmetic d → common c d ≡ common d c
unfolding common
common_comm other d p q = elim p [ ]
common_comm (floating v) other p q = elim q [ ]
common_comm (floating v) (floating w) p q = ap floating (omega arith)
common_comm (floating v) (integer s u) p q = refl
common_comm (integer r u) other p q = elim q [ ]
common_comm (integer r u) (floating w) p q = refl
common_comm (integer r true) (integer s true) p q = ground arith
common_comm (integer r true) (integer s false) p q = ground arith
common_comm (integer r false) (integer s true) p q = ground arith
common_comm (integer r false) (integer s false) p q = ground arith

unsigned_underlying :
    (t : AstType) (c : Class)
    → HasClass t c
    → IsClass c
    → is_unsigned_underlying t ≡ class_unsigned (promoted c)
unfolding is_unsigned_underlying class_width class_rank class_unsigned promoted
unsigned_underlying t other h p = rw (h.width, h.rank) refl
unsigned_underlying t (floating w) h p = rw (h.width, lt→ltb 0 w p) refl
unsigned_underlying t (integer r u) h p =
    rw (h.width, h.rank, h.sign)
      (elim (Bool-cases (ltb r 3)) [ inl e ↦ rw e refl | inr e ↦ rw e refl ])

-- isUnsignedArithmeticType says whether the type that promotion gives is unsigned.
pub is_unsigned_arithmetic_type-promote :
    (t : AstType) → is_unsigned_arithmetic_type t ≡ class_unsigned (class_in_arithmetic t)
unfolding is_unsigned_arithmetic_type
is_unsigned_arithmetic_type-promote t =
    unsigned_underlying (arithmetic_underlying t) (class_of (arithmetic_underlying t))
      (has_class (arithmetic_underlying t)) (reads (arithmetic_underlying t)).is_class
