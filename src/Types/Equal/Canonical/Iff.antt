-- ===== src/Types/Equal/Canonical/Iff.antt =====
-- src/ast/Symbol.cpp: `typesEqual` decides whether the compared parts agree.
use my_llvm_c.Prelude.{
  int_eq, int_eq_eq, Bool, true, false, ◌&&◌, [], Bytes, bytes_eq, ◌==◌, ◌≡◌, refl, ap, ap₂, ◌∙◌,
}
use my_llvm_c.Types.{
  Qualifiers, AstType, null, basic, pointer, array, struct, class, union, enum, function, typedef,
  slice, optional, result, type_var, type_instance, AstTypes, nil, cons,
}
use my_llvm_c.Types.Equal.{kind_value, same_bool, types_equal, all_equal}
use my_llvm_c.Types.Equal.Canonical.{
  atomicity, canonical, canonicals, same_bool_eq, and-true, bytes_eq_eq, kind_eq,
}

parts :
    (q r : Qualifiers) (b : Bool)
    → (same_bool q.is_atomic r.is_atomic && b) ≡ true
    → (atomicity q ≡ atomicity r) × (b ≡ true)
parts q r b e =
    let (h, g) = and-true (same_bool q.is_atomic r.is_atomic) b e in
    (
      ap (λ a. record { is_atomic = a; is_const = false }) (same_bool_eq q.is_atomic r.is_atomic h),
      g,
    )

named :
    (make : Qualifiers → Bytes → AstType) (q r : Qualifiers) (s t : Bytes)
    → (same_bool q.is_atomic r.is_atomic && bytes_eq s t) ≡ true
    → make (atomicity q) s ≡ make (atomicity r) t
named make q r s t e = let (h, g) = parts q r (bytes_eq s t) e in ap₂ make h (bytes_eq_eq s t g)

atomic_only :
    (q r : Qualifiers) → same_bool q.is_atomic r.is_atomic ≡ true → atomicity q ≡ atomicity r
atomic_only q r e =
    ap (λ a. record { is_atomic = a; is_const = false }) (same_bool_eq q.is_atomic r.is_atomic e)

mutual
  unfolding types_equal all_equal canonical canonicals

  equal-canonical : (a b : AstType) → types_equal a b ≡ true → canonical a ≡ canonical b
  equal-canonical null null e = refl
  equal-canonical (basic q k) (basic r l) e =
      let (h, g) = and-true (kind_value k == kind_value l) (same_bool q.is_atomic r.is_atomic) e in
      ap₂ basic (atomic_only q r g) (kind_eq k l h)
  equal-canonical (pointer q a) (pointer r b) e =
      let (h, g) = parts q r (types_equal a b) e in ap₂ pointer h (equal-canonical a b g)
  equal-canonical (array q a n) (array r b m) e =
      let (h, g) = parts q r (int_eq n m && types_equal a b) e in
      let (i, j) = and-true (int_eq n m) (types_equal a b) g in
      ap₂ (λ p k. array p (canonical a) k) h (int_eq_eq n m i)
      ∙ ap (λ t. array (atomicity r) t m) (equal-canonical a b j)
  equal-canonical (struct q s) (struct r t) e = named struct q r s t e
  equal-canonical (class q s) (class r t) e = named class q r s t e
  equal-canonical (union q s) (union r t) e = named union q r s t e
  equal-canonical (enum q s _) (enum r t _) e = named (λ p n. enum p n null) q r s t e
  equal-canonical (function q a ps _) (function r b qs _) e =
      let (h, g) = parts q r (types_equal a b && all_equal ps qs) e in
      let (i, j) = and-true (types_equal a b) (all_equal ps qs) g in
      ap₂ (λ p t. function p t (canonicals ps) false) h (equal-canonical a b i)
      ∙ ap (λ ts. function (atomicity r) (canonical b) ts false) (equal-canonicals ps qs j)
  equal-canonical (typedef q _ a) (typedef r _ b) e =
      let (h, g) = parts q r (types_equal a b) e in
      ap₂ (λ p t. typedef p [] t) h (equal-canonical a b g)
  equal-canonical (slice q a) (slice r b) e =
      let (h, g) = parts q r (types_equal a b) e in ap₂ slice h (equal-canonical a b g)
  equal-canonical (optional q a) (optional r b) e =
      let (h, g) = parts q r (types_equal a b) e in ap₂ optional h (equal-canonical a b g)
  equal-canonical (result q a x) (result r b y) e =
      let (h, g) = parts q r (types_equal a b && types_equal x y) e in
      let (i, j) = and-true (types_equal a b) (types_equal x y) g in
      ap₂ (λ p t. result p t (canonical x)) h (equal-canonical a b i)
      ∙ ap (λ t. result (atomicity r) (canonical b) t) (equal-canonical x y j)
  equal-canonical (type_var q _) (type_var r _) e = ap (λ p. type_var p []) (atomic_only q r e)
  equal-canonical (type_instance q _ _ _) (type_instance r _ _ _) e =
      ap (λ p. type_instance p [] nil []) (atomic_only q r e)
  equal-canonical _ _ e = absurd (cc)

  equal-canonicals : (cs bs : AstTypes) → all_equal cs bs ≡ true → canonicals cs ≡ canonicals bs
  equal-canonicals nil nil e = refl
  equal-canonicals (cons a cs) (cons b bs) e =
      let (h, g) = and-true (types_equal a b) (all_equal cs bs) e in
      ap₂ cons (equal-canonical a b h) (equal-canonicals cs bs g)
  equal-canonicals nil (cons b bs) e = absurd (cc)
  equal-canonicals (cons a cs) nil e = absurd (cc)

mutual
  unfolding types_equal all_equal canonical canonicals

  types_equal-canonical :
      (a b : AstType) → types_equal (canonical a) (canonical b) ≡ types_equal a b
  types_equal-canonical (pointer q a) (pointer r b) = rw (types_equal-canonical a b) refl
  types_equal-canonical (array q a n) (array r b m) = rw (types_equal-canonical a b) refl
  types_equal-canonical (function q a ps _) (function r b qs _) =
      rw (types_equal-canonical a b, all_equal-canonicals ps qs) refl
  types_equal-canonical (typedef q _ a) (typedef r _ b) = rw (types_equal-canonical a b) refl
  types_equal-canonical (slice q a) (slice r b) = rw (types_equal-canonical a b) refl
  types_equal-canonical (optional q a) (optional r b) = rw (types_equal-canonical a b) refl
  types_equal-canonical (result q a x) (result r b y) =
      rw (types_equal-canonical a b, types_equal-canonical x y) refl
  types_equal-canonical null null = refl
  types_equal-canonical (basic q k) (basic r l) = refl
  types_equal-canonical (struct q s) (struct r t) = refl
  types_equal-canonical (class q s) (class r t) = refl
  types_equal-canonical (union q s) (union r t) = refl
  types_equal-canonical (enum q s _) (enum r t _) = refl
  types_equal-canonical (type_var q _) (type_var r _) = refl
  types_equal-canonical (type_instance q _ _ _) (type_instance r _ _ _) = refl
  types_equal-canonical _ _ = cc

  all_equal-canonicals :
      (cs bs : AstTypes) → all_equal (canonicals cs) (canonicals bs) ≡ all_equal cs bs
  all_equal-canonicals (cons a cs) (cons b bs) =
      rw (types_equal-canonical a b, all_equal-canonicals cs bs) refl
  all_equal-canonicals nil nil = refl
  all_equal-canonicals _ _ = cc
