-- ===== src/Mangle/Names.antt =====
-- src/ast/Mangle.cpp: the sets of names with C linkage, against membership.
use my_llvm_c.Prelude.{◌≡◌, inl, inr, refl, sym, ap, ◌∙◌, ◌||◌, List, Bool-cases, Bytes, bytes_eq}
use my_llvm_c.Types.{AstTypes}
use my_llvm_c.Types.Equal.Canonical.{bytes_eq_refl, bytes_eq_eq}
use my_llvm_c.Mangle.{
  mangle_function, LinkageNames, has, insert, mark_c_name, mark_namespace_c_name, is_c_name,
  is_namespace_c_name,
}

has-insert :
    (name other : Bytes) (names : List Bytes)
    → has other (insert name names) ≡ (bytes_eq name other || has other names)
unfolding has insert
has-insert name other names = elim (Bool-cases (has name names)) [
  | inr n ↦ rw (insert, n) refl
  | inl h ↦
      rw (insert, h)
        (elim (Bool-cases (bytes_eq name other)) [
          | inr d ↦ rw d refl
          | inl e ↦ rw e (ap (λ n. has n names) (sym (bytes_eq_eq name other e)) ∙ h)
        ])
]

-- A name is one of C linkage, or one of a namespace, after a mark exactly if it was before or is the one marked; a mark
-- of a namespace is both. A function of C linkage keeps its name.
pub mark_lookups :
    (name other : Bytes) (l : LinkageNames) (params : AstTypes)
    → (is_c_name other (mark_c_name name l) ≡ (bytes_eq name other || is_c_name other l))
      × (is_namespace_c_name other (mark_c_name name l) ≡ is_namespace_c_name other l)
      × (is_c_name other (mark_namespace_c_name name l)
          ≡ (bytes_eq name other || is_c_name other l))
      × (is_namespace_c_name other (mark_namespace_c_name name l)
          ≡ (bytes_eq name other || is_namespace_c_name other l))
      × (mangle_function (mark_c_name name l) name params ≡ name)
unfolding is_c_name is_namespace_c_name mark_c_name mark_namespace_c_name mangle_function
mark_lookups name other l params = (
  has-insert name other l.c_names,
  refl,
  has-insert name other l.c_names,
  has-insert name other l.namespace_c_names,
  rw (has-insert name name l.c_names, bytes_eq_refl name) refl,
)
