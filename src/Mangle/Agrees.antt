-- ===== src/Mangle/Agrees.antt =====
-- src/ast/Mangle.cpp: mangled names against `typesEqual`.
use my_llvm_c.Types.{
  AstType, pointer, array, typedef, slice, optional, result, type_var, type_instance, AstTypes, nil,
  cons,
}

-- The name of a type shows no parameter and no use of a template.
abbrev pub IsConcrete : AstType → Type 0
IsConcrete (pointer q a) = IsConcrete a
IsConcrete (array q a n) = IsConcrete a
IsConcrete (slice q a) = IsConcrete a
IsConcrete (optional q a) = IsConcrete a
IsConcrete (result q a e) = IsConcrete a × IsConcrete e
IsConcrete (typedef q s a) = IsConcrete a
IsConcrete (type_var q s) = ⊥
IsConcrete (type_instance q s ts vs) = ⊥
IsConcrete _ = Unit

abbrev pub AllConcrete : AstTypes → Type 0
AllConcrete nil = Unit
AllConcrete (cons t ts) = IsConcrete t × AllConcrete ts
